-- ===== src/Transports/Tests.antt =====
-- Short messages through the transport of lc-lib/transports/tcp.
use log_courier.Common.{ℕ, ◌≡◌, refl, true, false, List, [], ◌∷◌, ◌++◌, some, arith}
use log_courier.Core.{EventDescriptor}
use log_courier.Transports.{ack, pong}
use log_courier.Transports.Tcp.Wire.{write, frame, put_uint32}
use log_courier.Transports.Tcp.Wire.RoundTrip.{read_message, read_message-write}
use log_courier.Transports.Tcp.Receiver.{Arrival, arrived, timed_out, waits, receive, contents}
use log_courier.Transports.Tcp.Receiver.Messages.{Message, ackn, wires, wire, receive-wires}
use log_courier.Transports.Tcp.Sender.{Input, message, wrote, sender, Attempt}
use log_courier.Transports.Tcp.Sender.Writes.{texts, sender-texts}
use log_courier.Transports.Tcp.Controller.{Round, controller}
use log_courier.Transports.Tcp.Controller.Sockets.{IsOrderly, controller-IsOrderly}

abbrev nonce : List ℕ
nonce = 1 ∷ 2 ∷ 3 ∷ 4 ∷ 5 ∷ 6 ∷ 7 ∷ 8 ∷ 9 ∷ 10 ∷ 11 ∷ 12 ∷ 13 ∷ 14 ∷ 15 ∷ 16 ∷ []

abbrev events : List EventDescriptor
events =
    record { stream = 1; offset = 3; payload = 97 ∷ 98 ∷ [] }
    ∷ record { stream = 1; offset = 4; payload = [] }
    ∷ []

-- Without a compression.
read_message-write_example :
    read_message (λ text. some text) (write (λ text. text) nonce events)
    ≡ some (nonce, (97 ∷ 98 ∷ []) ∷ [] ∷ [])
read_message-write_example =
    read_message-write (λ text. text) (λ text. some text) nonce events (λ text. refl) refl
      (omega arith, (omega arith, tt)) (unfold frame put_uint32 in omega arith)

abbrev messages : List Message
messages = Message.pong ∷ ackn nonce 300 ∷ []

-- "PO", a timeout, "NG" and the length, and then the acknowledgement with one byte more.
abbrev arrivals : List Arrival
arrivals =
    arrived (80 ∷ 79 ∷ [])
    ∷ timed_out
    ∷ arrived (78 ∷ 71 ∷ 0 ∷ 0 ∷ 0 ∷ 0 ∷ 65 ∷ [])
    ∷ arrived (67 ∷ 75 ∷ 78 ∷ 0 ∷ 0 ∷ 0 ∷ 20 ∷ [])
    ∷ arrived (nonce ++ 0 ∷ 0 ∷ 1 ∷ 44 ∷ 7 ∷ [])
    ∷ []

arrivals-wires : contents arrivals ≡ wires messages ++ 7 ∷ []
unfolding contents wires wire put_uint32
arrivals-wires = refl

receive-wires_example : receive arrivals ≡ (pong ∷ ack nonce 300 ∷ [], waits)
receive-wires_example =
    receive-wires messages (7 ∷ []) arrivals (tt, ((refl, omega arith), tt)) (omega arith) tt
      arrivals-wires

abbrev inputs : List Input
inputs =
    message (1 ∷ 2 ∷ 3 ∷ []) (wrote 1 ∷ Attempt.timed_out 0 false ∷ wrote 2 ∷ [])
    ∷ message (4 ∷ 5 ∷ []) (Attempt.failed 1 ∷ [])
    ∷ []

sender-texts_example : (rest : List ℕ) × ((sender inputs).0 ++ rest ≡ texts inputs)
sender-texts_example = sender-texts inputs

-- A connection that fails, one that is lost, and one that lasts until the shutdown.
abbrev rounds : List Round
rounds =
    record { connects = false; shut_down = false; reported = true; waited = true }
    ∷ record { connects = true; shut_down = false; reported = true; waited = true }
    ∷ record { connects = true; shut_down = true; reported = true; waited = true }
    ∷ []

controller-IsOrderly_example : IsOrderly false false (controller false rounds)
controller-IsOrderly_example = controller-IsOrderly false rounds
