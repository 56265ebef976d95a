-- ===== src/Transports/Tcp.antt =====
-- lc-lib/transports/tcp: the transport of payloads over a TCP connection.
pub mod Wire
pub mod Receiver
pub mod Sender
pub mod Controller
