-- ===== src/Transports/Tcp/Receiver.antt =====
-- The receiver of lc-lib/transports/tcp/tcp.go. What the socket's reads meet is a list: bytes that
-- arrive, of which a read takes what it has room for, the read's timeout, another error, or the
-- closed channel `recvControl`. The observer takes every event.
pub mod Reads
pub mod Messages
use log_courier.Common.{
  ℕ, zero, suc, ◌+◌, ◌-◌, Bool, true, false, ◌&&◌, List, [], ◌∷◌, ◌++◌, Option, none, some, length,
  take, drop, leb, ltb, ◌==◌, if◌then◌else◌,
}
use log_courier.Transports.{Event, ack, pong}
use log_courier.Transports.Tcp.Wire.{uint32}

pub data Arrival : Type 0 where
  arrived : List ℕ → Arrival
  timed_out broken stop : Arrival

-- What `receiverRead` returns, with the arrivals that are left; without an arrival it waits.
pub data Read : Type 0 where
  full : List ℕ → List Arrival → Read
  shutdown error waiting : Read

-- The loop of `receiverRead`, `got` being what it has received.
unfoldable pub read_loop : (needed : ℕ) → (got : List ℕ) → List Arrival → Read
read_loop needed got [] = waiting
read_loop needed got (stop ∷ arrivals) = shutdown
read_loop needed got (broken ∷ arrivals) = error
read_loop needed got (timed_out ∷ arrivals) = read_loop needed got arrivals
read_loop needed got (arrived bytes ∷ arrivals) =
    let room = needed - length got in
    let rest = read_loop needed (got ++ bytes) arrivals in
    if leb room (length bytes)
    then full (got ++ take room bytes) (arrived (drop room bytes) ∷ arrivals)
    else rest

unfoldable pub receiver_read : (needed : ℕ) → List Arrival → Read
unfolding read_loop
receiver_read needed arrivals = read_loop needed [] arrivals

pub data Failure : Type 0 where
  connection too_large corrupt unexpected : Failure

-- A message: the event that it becomes, or the failure.
pub data Handled : Type 0 where
  event : Event → Handled
  failure : Failure → Handled

unfoldable pub is_code : (a b c d : ℕ) → List ℕ → Bool
is_code a b c d (w ∷ x ∷ y ∷ z ∷ rest) = w == a && x == b && y == c && z == d
is_code a b c d _ = false

-- `NewAckEventWithBytes`, of the nonce and the bytes of the sequence.
unfoldable pub ack_event : List ℕ → Handled
unfolding uint32
ack_event message = elim (uint32 (drop 16 message)) [
  | none ↦ failure corrupt
  | some sequence ↦ event (ack (take 16 message) sequence)
]

unfoldable pub handle : (header message : List ℕ) → Handled
unfolding is_code ack_event
handle header message =
    if is_code b'P' b'O' b'N' b'G' header
    then event pong
    else if is_code b'A' b'C' b'K' b'N' header
    then (if length message == 20 then ack_event message else failure corrupt)
    else failure unexpected

-- How the receiver ends: it is stopped, it fails, or it waits for more.
pub data End : Type 0 where
  stopped waits out_of_fuel : End
  fails : Failure → End

abbrev pub max_length : ℕ
max_length = 1048576

-- The bytes behind the header; none is needed for the length zero.
unfoldable pub read_body : ℕ → List Arrival → Read
unfolding receiver_read
read_body size arrivals = if ltb 0 size then receiver_read size arrivals else full [] arrivals

-- The length that the header says; none is more than the receiver takes.
unfoldable pub body_size : List ℕ → Option ℕ
unfolding uint32
body_size header = elim (uint32 (drop 4 header)) [
  | none ↦ none
  | some n ↦ if ltb max_length n then none else some n
]

unfoldable pub report : Handled → List Event × End → List Event × End
report (failure f) rest = ([], fails f)
report (event e) (events, end) = (e ∷ events, end)

-- A round of the loop of `receiver` behind the read of a body, and behind that of a header; `next`
-- is the rest of the loop.
unfoldable pub after_body :
    (header : List ℕ) → Read → (next : List Arrival → List Event × End) → List Event × End
unfolding handle report
after_body header shutdown next = ([], stopped)
after_body header error next = ([], fails connection)
after_body header waiting next = ([], waits)
after_body header (full message rest) next = report (handle header message) (next rest)

unfoldable pub after_header : Read → (next : List Arrival → List Event × End) → List Event × End
unfolding body_size read_body after_body
after_header shutdown next = ([], stopped)
after_header error next = ([], fails connection)
after_header waiting next = ([], waits)
after_header (full header left) next = elim (body_size header) [
  | none ↦ ([], fails too_large)
  | some n ↦ after_body header (read_body n left) next
]

unfoldable pub receiver : ℕ → List Arrival → List Event × End
unfolding receiver_read after_header
receiver zero arrivals = ([], out_of_fuel)
receiver (suc fuel) arrivals = after_header (receiver_read 8 arrivals) (receiver fuel)

-- All the bytes that arrive.
unfoldable pub contents : List Arrival → List ℕ
contents [] = []
contents (arrived bytes ∷ arrivals) = bytes ++ contents arrivals
contents (_ ∷ arrivals) = contents arrivals

-- The receiver's routine: each message takes a header's bytes, so that the fuel is enough.
unfoldable pub receive : List Arrival → List Event × End
unfolding receiver contents
receive arrivals = receiver (length (contents arrivals) + 1) arrivals
