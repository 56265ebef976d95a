-- ===== src/Transports/Tcp/Receiver/Messages.antt =====
-- The receiver of lc-lib/transports/tcp/tcp.go reports the messages that the server sent, however
-- their bytes are cut up on the way, and always ends.
use log_courier.Common.{
  ℕ, zero, suc, ◌+◌, ◌^◌, ◌≤◌, ◌<◌, ◌≡◌, refl, sym, ap, ◌∙◌, inl, inr, true, Option-cases, List, [],
  ◌∷◌, ◌++◌, some, map, length, take, drop, lt→ltb, ◌==◌, ◌==◌, if◌then◌else◌, arith, length-append,
  take-append_length, drop-append_length, append_assoc, append-nil,
}
use log_courier.Transports.{Event}
use log_courier.Transports.Tcp.Wire.{put_uint32, uint32}
use log_courier.Transports.Tcp.Wire.RoundTrip.{uint32-put_uint32}
use log_courier.Transports.Tcp.Receiver.{
  Arrival, Read, full, shutdown, error, waiting, read_loop, receiver_read, contents, Handled, event,
  failure, is_code, ack_event, handle, End, waits, out_of_fuel, read_body, body_size, report,
  after_body, after_header, receiver, receive,
}
use log_courier.Transports.Tcp.Receiver.Reads.{
  IsOpen, read_loop-contents, read_loop-full, read_loop-waiting,
}

-- What a server sends, by docs/Protocol.md.
pub data Message : Type 0 where
  pong : Message
  ackn : (nonce : List ℕ) → (sequence : ℕ) → Message

abbrev pub code : Message → List ℕ
code pong = b'P' ∷ b'O' ∷ b'N' ∷ b'G' ∷ []
code (ackn nonce sequence) = b'A' ∷ b'C' ∷ b'K' ∷ b'N' ∷ []

abbrev pub body : Message → List ℕ
body pong = []
body (ackn nonce sequence) = nonce ++ put_uint32 sequence

abbrev size : Message → ℕ
size pong = 0
size (ackn nonce sequence) = 20

abbrev header : Message → List ℕ
header m = code m ++ put_uint32 (size m)

unfoldable pub wire : Message → List ℕ
wire m = code m ++ (put_uint32 (size m) ++ body m)

unfoldable pub wires : List Message → List ℕ
unfolding wire
wires [] = []
wires (m ∷ ms) = wire m ++ wires ms

abbrev pub IsGood : Message → Type 0
IsGood pong = Unit {0}
IsGood (ackn nonce sequence) = (length nonce ≡ 16) × (sequence < 2 ^ 32)

abbrev pub AllGood : List Message → Type 0
AllGood [] = Unit {0}
AllGood (m ∷ ms) = IsGood m × AllGood ms

abbrev pub event_of : Message → Event
event_of pong = Event.pong
event_of (ackn nonce sequence) = Event.ack nonce sequence

size-body : (m : Message) → IsGood m → length (body m) ≡ size m
size-body pong good = refl
size-body (ackn nonce sequence) (l, h) =
    unfold put_uint32 in omega (arith, length-append nonce (put_uint32 sequence))

body_size-header : (m : Message) → body_size (header m) ≡ some (size m)
unfolding body_size put_uint32 uint32
body_size-header pong = refl
body_size-header (ackn nonce sequence) = refl

length-header : (m : Message) → length (header m) ≡ 8
unfolding put_uint32
length-header pong = refl
length-header (ackn nonce sequence) = refl

ack_event-body :
    (nonce : List ℕ) (sequence : ℕ)
    → length nonce ≡ 16
    → sequence < 2 ^ 32
    → ack_event (nonce ++ put_uint32 sequence) ≡ event (Event.ack nonce sequence)
unfolding ack_event
ack_event-body nonce sequence l h =
    let d : drop 16 (nonce ++ put_uint32 sequence) ≡ put_uint32 sequence =
      ap (λ k. drop k (nonce ++ put_uint32 sequence)) (sym l)
      ∙ drop-append_length nonce (put_uint32 sequence) in
    let t : take 16 (nonce ++ put_uint32 sequence) ≡ nonce =
      ap (λ k. take k (nonce ++ put_uint32 sequence)) (sym l)
      ∙ take-append_length nonce (put_uint32 sequence) in
    let u : uint32 (put_uint32 sequence) ≡ some sequence =
      ap uint32 (sym (append-nil (put_uint32 sequence))) ∙ uint32-put_uint32 sequence [] h in
    rw (d, ack_event) (rw (u, ack_event) (rw t refl))

handle-header : (m : Message) → IsGood m → handle (header m) (body m) ≡ event (event_of m)
unfolding handle is_code ack_event put_uint32
handle-header pong good = refl
handle-header (ackn nonce sequence) (l, h) =
    let n : (length (nonce ++ put_uint32 sequence) == 20) ≡ true =
      ground (arith, length-append nonce (put_uint32 sequence)) in
    rw n (ack_event-body nonce sequence l h)

regroup : (m : Message) (rest : List ℕ) → wire m ++ rest ≡ header m ++ (body m ++ rest)
unfolding wire
regroup m rest =
    ap (λ x. x ++ rest) (sym (append_assoc (code m) (put_uint32 (size m)) (body m)))
    ∙ append_assoc (header m) (body m) rest

read_body-full :
    (m : Message) (left : List Arrival) (rest : List ℕ)
    → IsGood m
    → IsOpen left
    → contents left ≡ body m ++ rest
    → (left' : List Arrival) × (read_body (size m) left ≡ full (body m) left')
      × IsOpen left'
      × (contents left' ≡ rest)
unfolding read_body receiver_read
read_body-full pong left rest good o e = (left, refl, o, e)
read_body-full (ackn nonce sequence) left rest good o e =
    let l = size-body (ackn nonce sequence) good in
    read_loop-full 20 [] left (nonce ++ put_uint32 sequence) rest o e (omega (arith, l))
      (omega (arith, l))

receiver_step :
    (fuel : ℕ) (arrivals : List Arrival) (m : Message) (rest : List ℕ)
    → IsGood m
    → IsOpen arrivals
    → contents arrivals ≡ wire m ++ rest
    → (left : List Arrival) × (receiver (suc fuel) arrivals
        ≡ (event_of m ∷ (receiver fuel left).0, (receiver fuel left).1))
      × IsOpen left
      × (contents left ≡ rest)
unfolding receiver receiver_read wire
receiver_step fuel arrivals m rest good o e =
    let l = length-header m in
    let (left, q, o₁, c) =
      read_loop-full 8 [] arrivals (header m) (body m ++ rest) o (e ∙ regroup m rest)
        (omega (arith, l)) (omega (arith, l)) in
    let (left', r, o₂, d) = read_body-full m left rest good o₁ c in
    (
      left',
      ap (λ x. after_header x (receiver fuel)) q
          ∙ (unfold after_header in rw (body_size-header m, after_header) refl)
          ∙ ap (λ x. after_body (header m) x (receiver fuel)) r
          ∙ (unfold after_body in ap (λ x. report x (receiver fuel left')) (handle-header m good))
          ∙ (unfold report in refl),
      o₂,
      d,
    )

receiver-wires :
    (fuel : ℕ) (ms : List Message) (part : List ℕ) (arrivals : List Arrival)
    → length ms < fuel
    → AllGood ms
    → length part < 8
    → IsOpen arrivals
    → contents arrivals ≡ wires ms ++ part
    → receiver fuel arrivals ≡ (map event_of ms, waits)
unfolding wires
receiver-wires zero ms part arrivals h good p o e = absurd (omega arith)
receiver-wires (suc fuel) [] part arrivals h good p o e =
    unfold receiver receiver_read in
    ap (λ x. after_header x (receiver fuel))
      (read_loop-waiting 8 [] arrivals o (omega (arith, ap length e)))
receiver-wires (suc fuel) (m ∷ ms) part arrivals h (good, all) p o e =
    let (left, q, o', c) =
      receiver_step fuel arrivals m (wires ms ++ part) good o
        (e ∙ append_assoc (wire m) (wires ms) part) in
    let r = receiver-wires fuel ms part left (omega arith) all p o' c in
    q ∙ ap (λ x. (event_of m ∷ x.0, x.1)) r

length-wires : (ms : List Message) → length ms ≤ length (wires ms)
unfolding wires wire
length-wires [] = omega arith
length-wires (m ∷ ms) = omega (
  arith,
  length-wires ms,
  length-header m,
  length-append (wire m) (wires ms),
  ap length (regroup m []),
  length-append (header m) (body m ++ []),
  ap length (append-nil (wire m)),
)

-- If the server's messages, pongs and acknowledgements with a nonce of 16 bytes and a sequence
-- below 2^32, arrive with less than a header behind them, then however their bytes are cut up and
-- whatever reads time out meanwhile, the receiver reports exactly these messages, in order, and
-- waits for more.
pub receive-wires :
    (ms : List Message) (part : List ℕ) (arrivals : List Arrival)
    → AllGood ms
    → length part < 8
    → IsOpen arrivals
    → contents arrivals ≡ wires ms ++ part
    → receive arrivals ≡ (map event_of ms, waits)
unfolding receive
receive-wires ms part arrivals good p o e =
    receiver-wires (length (contents arrivals) + 1) ms part arrivals
      (omega (arith, ap length e, length-append (wires ms) part, length-wires ms)) good p o e

abbrev pub IsEnded : End → Type 0
IsEnded out_of_fuel = ⊥
IsEnded _ = Unit {0}

report-IsEnded :
    (handled : Handled) (rest : List Event × End) → IsEnded rest.1 → IsEnded (report handled rest).1
unfolding report
report-IsEnded (failure f) rest h = tt
report-IsEnded (event x) (events, end) h = h

after_body-IsEnded :
    (head : List ℕ) (r : Read) (limit : ℕ) (next : List Arrival → List Event × End)
    → ((message : List ℕ) (rest : List Arrival) → r ≡ full message rest → IsEnded (next rest).1)
    → IsEnded (after_body head r next).1
unfolding after_body
after_body-IsEnded head shutdown limit next h = tt
after_body-IsEnded head error limit next h = tt
after_body-IsEnded head waiting limit next h = tt
after_body-IsEnded head (full message rest) limit next h =
    report-IsEnded (handle head message) (next rest) (h message rest refl)

read_body-shorter :
    (n : ℕ) (left : List Arrival) (message : List ℕ) (rest : List Arrival)
    → read_body n left ≡ full message rest
    → length (contents rest) ≤ length (contents left)
unfolding read_body receiver_read
read_body-shorter zero left message rest e =
    let q : left ≡ rest = cc in omega (arith, ap (λ x. length (contents x)) q)
read_body-shorter (suc n) left message rest e =
    let (c, l) = read_loop-contents (suc n) [] left message rest (omega arith) (
      sym (
        ap (λ b. if b then read_loop (suc n) [] left else full [] left)
          (lt→ltb 0 (suc n) (omega arith)))
      ∙ e) in
    omega (arith, ap length c, length-append message (contents rest))

after_header-IsEnded :
    (r : Read) (limit : ℕ) (next : List Arrival → List Event × End)
    → ((head : List ℕ) (left : List Arrival) → r ≡ full head left → length (contents left) < limit)
    → ((rest : List Arrival) → length (contents rest) < limit → IsEnded (next rest).1)
    → IsEnded (after_header r next).1
unfolding after_header
after_header-IsEnded shutdown limit next h k = tt
after_header-IsEnded error limit next h k = tt
after_header-IsEnded waiting limit next h k = tt
after_header-IsEnded (full head left) limit next h k = elim (Option-cases (body_size head)) [
  | inl e ↦ rw (e, after_header) tt
  | inr (n, e) ↦
      rw (e, after_header)
        (after_body-IsEnded head (read_body n left) limit next (λ message rest q.
          k rest (omega (arith, read_body-shorter n left message rest q, h head left refl))))
]

receiver-IsEnded :
    (fuel : ℕ) (arrivals : List Arrival)
    → length (contents arrivals) < fuel
    → IsEnded (receiver fuel arrivals).1
unfolding receiver receiver_read
receiver-IsEnded zero arrivals h = absurd (omega arith)
receiver-IsEnded (suc fuel) arrivals h =
    after_header-IsEnded (read_loop 8 [] arrivals) fuel (receiver fuel)
      (λ head left e.
        let (c, l) = read_loop-contents 8 [] arrivals head left (omega arith) e in
        omega (arith, ap length c, length-append head (contents left)))
      (λ rest q. receiver-IsEnded fuel rest q)

-- Whatever arrives, the fuel of the receiver is enough.
pub receive-IsEnded : (arrivals : List Arrival) → IsEnded (receive arrivals).1
unfolding receive
receive-IsEnded arrivals = receiver-IsEnded (length (contents arrivals) + 1) arrivals (omega arith)
