-- ===== src/Transports.antt =====
-- lc-lib/transports: what a transport reports to its endpoint, and the transport over TCP.
pub mod Tcp
mod Tests
use log_courier.Common.{ℕ, List}

-- event.go: `Started`, `Failed` and `Finished`.
pub data StatusChange : Type 0 where
  started failed finished : StatusChange

-- `AckEvent` and `PongEvent`, and `StatusEvent`. A nonce is a list of bytes.
pub data Event : Type 0 where
  status : StatusChange → Event
  ack : (nonce : List ℕ) → (sequence : ℕ) → Event
  pong : Event
