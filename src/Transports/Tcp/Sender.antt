-- ===== src/Transports/Tcp/Sender.antt =====
-- The writes of lc-lib/transports/tcp: the wrapper of the TLS connection (wrap.go) and the sender
-- of tcp.go. What an attempt to write meets is an input.
pub mod Writes
use log_courier.Common.{
  ℕ, ◌+◌, ◌-◌, Bool, true, false, List, [], ◌∷◌, ◌++◌, length, take, drop, leb, if◌then◌else◌, min,
}

-- An attempt takes so many bytes, of those that are left, and ends well, by the timeout, with the
-- channel `sendControl` closed or not, or with another error.
pub data Attempt : Type 0 where
  wrote : ℕ → Attempt
  timed_out : ℕ → (control : Bool) → Attempt
  failed : ℕ → Attempt

-- How a write ends, with the bytes that the socket took; without an attempt it waits.
pub data Written : Type 0 where
  done : List ℕ → Written
  stopped : List ℕ → Written
  broken : List ℕ → Written
  waiting : List ℕ → Written

abbrev pub taken : Written → List ℕ
taken (done sent) = sent
taken (stopped sent) = sent
taken (broken sent) = sent
taken (waiting sent) = sent

-- `if length >= len(b)`.
unfoldable pub when_all : (left : List ℕ) → (over next : Written) → Written
when_all [] over next = over
when_all (b ∷ left) over next = next

-- The loop of `Write` of the wrapper: what was sent, and what is left of the message. It returns the
-- error of the attempt that took the last byte, and the sender takes a timeout for a shutdown.
unfoldable pub write_loop : (sent left : List ℕ) → List Attempt → Written
unfolding when_all
write_loop sent left [] = waiting sent
write_loop sent left (wrote n ∷ attempts) =
    let rest = write_loop (sent ++ take n left) (drop n left) attempts in
    when_all (drop n left) (done (sent ++ take n left)) rest
write_loop sent left (timed_out n control ∷ attempts) =
    let rest = write_loop (sent ++ take n left) (drop n left) attempts in
    when_all (drop n left) (stopped (sent ++ take n left))
      (if control then stopped (sent ++ take n left) else rest)
write_loop sent left (failed n ∷ attempts) = broken (sent ++ take n left)

unfoldable pub write : List ℕ → List Attempt → Written
unfolding write_loop
write message attempts = write_loop [] message attempts

-- What the `select` of the sender takes: a message with the attempts to write it, or the closed
-- channel `sendControl`.
pub data Input : Type 0 where
  message : List ℕ → List Attempt → Input
  control : Input

pub data End : Type 0 where
  shutdown failure waits : End

-- The loop of `sender`: what the socket took, and how it ends. An error that is no timeout fails
-- the transport.
unfoldable pub after_write : Written → List ℕ × End → List ℕ × End
after_write (done sent) (more, end) = (sent ++ more, end)
after_write (stopped sent) next = (sent, shutdown)
after_write (broken sent) next = (sent, failure)
after_write (waiting sent) next = (sent, waits)

unfoldable pub sender : List Input → List ℕ × End
unfolding write after_write
sender [] = ([], waits)
sender (control ∷ inputs) = ([], shutdown)
sender (message text attempts ∷ inputs) = after_write (write text attempts) (sender inputs)
