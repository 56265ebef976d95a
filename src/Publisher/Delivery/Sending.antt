-- ===== src/Publisher/Delivery/Sending.antt =====
-- Sending where the transports take what is written (lc-lib/publisher/publisher.go, tryQueueHeld and
-- sendPayload): the events are all accounted for.
use log_courier.Common.{
  ℕ, zero, suc, ◌+◌, ◌%◌, ◌<◌, ◌≤◌, ◌≡◌, refl, sym, ap, ◌∙◌, subst, inl, inr, true, false,
  Option-cases, not, ◌&&◌, ◌||◌, List, [], ◌∷◌, ◌++◌, Option, none, some, arith, length, ◌==◌,
  if◌then◌else◌, if-Both, if-true, lookup, nat_eq, count, append-nil,
}
use log_courier.Core.{EventDescriptor}
use log_courier.Endpoint.{is_active, set_payloads}
use log_courier.Endpoint.Lists.{IsListed}
use log_courier.Endpoint.Steps.{set_payloads-IsListed}
use log_courier.Prospector.State.{mem}
use log_courier.Publisher.{resend, queue_events}
use log_courier.Publisher.Holds.{IsInOrder, queue_events-IsInOrder}
use log_courier.Publisher.Order.{resend_first-IsInOrder}
use log_courier.Publisher.Delivery.{
  Delivery, Tries, Answers, set_pending, queue_payload, nth, best, send_payload, send_again,
  resend_loop, send_events, hold_unless, send_spool, can_queue, below_limit, queue_held,
  try_queue_held, take_spool,
}

nth-count :
    (n : ℕ) (list : List ℕ) → n < length list → (e : ℕ) × (nth n list ≡ some e) × (1 ≤ count e list)
unfolding nth count
nth-count n [] short = ground (arith, short)
nth-count zero (x ∷ list) short = (x, refl, ground arith)
nth-count (suc n) (x ∷ list) short =
    let (e, q, c) = nth-count n list (omega (arith, short)) in (e, q, ground (arith, c))

-- What sending a payload leaves as it was.
pub record Sends (d d' : Delivery) : Type 0 where
  pub listed : IsListed d'.sink
  pub ready : d'.sink.ready_list ≡ d.sink.ready_list
  pub ordered : d'.sink.ordered_list ≡ d.sink.ordered_list
  pub publisher : d'.publisher ≡ d.publisher
  pub held : d'.next_spool ≡ d.next_spool
  pub going : d'.shutting_down ≡ d.shutting_down

queue_payload-Sends :
    (e id : ℕ) (d : Delivery)
    → IsListed d.sink
    → 1 ≤ count e d.sink.ready_list
    → (d' : Delivery) × (queue_payload e id d ≡ some d') × Sends d d'
unfolding queue_payload set_pending set_payloads
queue_payload-Sends e id d h c = elim (Option-cases (lookup e d.sink.endpoints)) [
  | inl n ↦ ground (arith, c, h.ready e, n)
  | inr (ep, l) ↦
      let live : is_active ep.status ≡ true = ground (arith, c, h.ready e, l) in
      (
        set_pending e (if mem id (d.pending e) then d.pending e else id ∷ d.pending e)
            (record d { sink = set_payloads (ep.num_payloads + 1) e ep d.sink }),
        rw (l, queue_payload) (if-true (is_active ep.status) _ _ live),
        record {
          listed = set_payloads-IsListed (ep.num_payloads + 1) e ep d.sink l h;
          ready = refl;
          ordered = refl;
          publisher = refl;
          held = refl;
          going = refl;
        },
      )
]

send_payload-Sends :
    (choice id : ℕ) (d : Delivery)
    → IsListed d.sink
    → can_queue d ≡ true
    → (d' : Delivery) × (send_payload choice true id d ≡ some d') × Sends d d'
unfolding send_payload can_queue best
send_payload-Sends choice id d h can =
    let some_ready : 0 < length d.sink.ready_list = ground (arith, can) in
    let (e, q, c) =
      nth-count (choice % length d.sink.ready_list) d.sink.ready_list (omega (arith, some_ready)) in
    let (d', s, k) = queue_payload-Sends e id d h c in
    (d', rw (q, send_payload) (rw (s, send_payload) refl), k)

abbrev pub held : Option (List EventDescriptor) → List EventDescriptor
held none = []
held (some events) = events

-- These events were taken: first what the publisher was given, which it has released in order or has in
-- flight, and then the spool that is held; the lists of the sink are as they should be, and the
-- publisher does not shut down.
pub record Accounts (taken : List EventDescriptor) (d : Delivery) : Type 0 where
  pub listed : IsListed d.sink
  pub given : List EventDescriptor
  pub in_order : IsInOrder given d.publisher
  pub all : given ++ held d.next_spool ≡ taken
  pub going : d.shutting_down ≡ false

-- Every write is taken, at the first try.
abbrev pub Accepts : Answers → Type 0
Accepts a = (a.accepted ≡ true) × ((id : ℕ) → (a.tries id).failures ≡ [])

-- A result that accounts for the events, with the same endpoints.
abbrev pub Returns : List EventDescriptor → Delivery → Option Delivery → Type 0
Returns taken d result =
    (d' : Delivery) × (result ≡ some d')
    × Accounts taken d'
    × (d'.sink.ordered_list ≡ d.sink.ordered_list)

send_again-Returns :
    (taken : List EventDescriptor) (success id : ℕ) (d : Delivery)
    → Accounts taken d
    → can_queue d ≡ true
    → (d' : Delivery) × (send_again [] success id d ≡ some d')
      × Accounts taken d'
      × (d'.sink.ordered_list ≡ d.sink.ordered_list)
      × (can_queue d' ≡ true)
unfolding send_again resend can_queue
send_again-Returns taken success id d a can =
    let (d₁, s, k) = send_payload-Sends success id d a.listed can in
    (
      record d₁ { publisher = resend d₁.publisher },
      rw (s, send_again) refl,
      record {
        listed = k.listed;
        given = a.given;
        in_order =
            resend_first-IsInOrder a.given d₁.publisher.resend_list d₁.publisher
              (subst (IsInOrder a.given) (sym k.publisher) a.in_order);
        all = ap (λ h. a.given ++ held h) k.held ∙ a.all;
        going = k.going ∙ a.going;
      },
      k.ordered,
      ap (λ (list : List ℕ). not (length list == 0)) k.ready ∙ can,
    )

resend_loop-Returns :
    (taken : List EventDescriptor) (tries : ℕ → Tries) (ids : List ℕ) (d : Delivery)
    → ((id : ℕ) → (tries id).failures ≡ [])
    → Accounts taken d
    → can_queue d ≡ true
    → Returns taken d (resend_loop tries ids d)
unfolding resend_loop
resend_loop-Returns taken tries [] d sure a can = (d, refl, a, refl)
resend_loop-Returns taken tries (id ∷ ids) d sure a can =
    let (d₁, s, a₁, o₁, can₁) = send_again-Returns taken (tries id).success id d a can in
    let (d₂, t, a₂, o₂) = resend_loop-Returns taken tries ids d₁ sure a₁ can₁ in
    let sent = ap (λ failures. send_again failures (tries id).success id d) (sure id) ∙ s in
    (d₂, rw (sent, resend_loop) t, a₂, o₂ ∙ o₁)

send_spool-Returns :
    (given : List EventDescriptor) (a : Answers) (events : List EventDescriptor) (d : Delivery)
    → Accepts a
    → IsListed d.sink
    → IsInOrder given d.publisher
    → d.shutting_down ≡ false
    → can_queue d ≡ true
    → Returns (given ++ events) d (send_spool a events d)
unfolding send_spool send_events hold_unless can_queue
send_spool-Returns given a events d (accepted, sure) listed order going can =
    let d₁ = record d { publisher = queue_events events d.publisher } in
    let (d₂, s, k) = send_payload-Sends a.choice d.publisher.next_id d₁ listed can in
    let sent = ap (λ b. send_payload a.choice b d.publisher.next_id d₁) accepted ∙ s in
    (
      record d₂ { next_spool = none },
      ap
            (λ (o : Option Delivery). elim o [
              | none ↦ none
              | some next ↦ some (hold_unless a.accepted events next)
            ])
            sent
          ∙ ap (λ b. some (hold_unless b events d₂)) accepted,
      record {
        listed = k.listed;
        given = given ++ events;
        in_order =
            subst (IsInOrder (given ++ events)) (sym k.publisher)
              (queue_events-IsInOrder given events d.publisher order);
        all = append-nil (given ++ events);
        going = k.going ∙ going;
      },
      k.ordered,
    )

queue_held-Returns :
    (taken : List EventDescriptor) (a : Answers) (ids : List ℕ)
    (spool : Option (List EventDescriptor)) (d : Delivery)
    → d.next_spool ≡ spool
    → Accepts a
    → Accounts taken d
    → can_queue d ≡ true
    → Returns taken d (queue_held a ids spool d)
unfolding queue_held
queue_held-Returns taken a (id ∷ ids) spool d e ok c can =
    resend_loop-Returns taken a.tries (id ∷ ids) d ok.1 c can
queue_held-Returns taken a [] none d e ok c can = (d, refl, c, refl)
queue_held-Returns taken a [] (some events) d e ok c can =
    if-Both (Returns taken d) (below_limit d) (send_spool a events d) (some d)
      (λ below.
        subst (λ es. Returns es d (send_spool a events d))
          (ap (λ h. c.given ++ held h) (sym e) ∙ c.all)
          (send_spool-Returns c.given a events d ok c.listed c.in_order c.going can))
      (λ full. (d, refl, c, refl))

-- `tryQueueHeld` returns, and accounts for the events.
pub try_queue_held-Returns :
    (taken : List EventDescriptor) (a : Answers) (d : Delivery)
    → Accepts a
    → Accounts taken d
    → Returns taken d (try_queue_held a d)
unfolding try_queue_held
try_queue_held-Returns taken a d ok c =
    if-Both (Returns taken d) (d.shutting_down || not (can_queue d)) (some d)
      (queue_held a d.publisher.resend_list d.next_spool d) (λ idle. (d, refl, c, refl))
      (λ goes.
        queue_held-Returns taken a d.publisher.resend_list d.next_spool d refl ok c
          (ground (arith, goes)))

-- A spool that arrives is sent or held, and then accounted for.
pub take_spool-Returns :
    (taken : List EventDescriptor) (a : Answers) (events : List EventDescriptor) (d : Delivery)
    → Accepts a
    → Accounts taken d
    → d.next_spool ≡ none
    → Returns (taken ++ events) d (take_spool a events d)
unfolding take_spool hold_unless
take_spool-Returns taken a events d ok c e =
    let given = sym (append-nil c.given) ∙ ap (λ h. c.given ++ held h) (sym e) ∙ c.all in
    if-Both (Returns (taken ++ events) d)
      (below_limit d && (length d.publisher.resend_list == 0) && can_queue d)
      (send_spool a events d) (some (hold_unless false events d))
      (λ goes.
        subst (λ g. Returns (g ++ events) d (send_spool a events d)) given
          (send_spool-Returns c.given a events d ok c.listed c.in_order c.going
            (ground (arith, goes))))
      (λ waits. (
        hold_unless false events d,
        refl,
        record {
          listed = c.listed;
          given = c.given;
          in_order = c.in_order;
          all = ap (λ g. g ++ events) given;
          going = c.going;
        },
        refl,
      ))
