-- ===== src/Publisher/Delivery/Order.antt =====
-- The events of lc-lib/publisher/publisher.go in their order, from the spools to the registrar, whatever
-- the transports report.
use log_courier.Common.{
  ℕ, ◌-◌, ◌≡◌, refl, ap, ◌∙◌, inl, inr, Bool, true, Bool-cases, Option-cases, not, ◌&&◌, List, [],
  ◌∷◌, drop, Option, none, some, arith, length, ◌==◌, if◌then◌else◌, if-Both, if-true, lookup,
  lookup-delete, beq_refl, nat_eq, count,
}
use log_courier.Core.{EventDescriptor}
use log_courier.Payload.{Payload, ack}
use log_courier.Payload.Invariant.{ack-IsValid, complete_lem}
use log_courier.Endpoint.{Endpoint, Sink, is_closing, add_endpoint, remove_endpoint}
use log_courier.Endpoint.Lists.{is_there, once, IsListed}
use log_courier.Endpoint.Steps.{
  remove_endpoint-IsListed, add_endpoint-IsListed, set_payloads-IsListed,
}
use log_courier.Prospector.State.{mem}
use log_courier.Prospector.Scan.{range}
use log_courier.Publisher.{Publisher, find, pull_back_pending}
use log_courier.Publisher.Holds.{IsInOrder}
use log_courier.Publisher.Order.{process_ack-IsInOrder}
use log_courier.Publisher.Updates.{find-IsValid}
use log_courier.Publisher.Delivery.{Delivery, Answers, set_pending, try_queue_held}
use log_courier.Publisher.Delivery.Steps.{
  finish_payload, close_when_done, acknowledge_value, acknowledge, finished,
}
use log_courier.Publisher.Delivery.Sending.{Accounts, Accepts, try_queue_held-Returns}
use log_courier.Publisher.Delivery.Accounts.{Accounted, set_sink, try_again, given_back}

set_publisher :
    (taken : List EventDescriptor) (p : Publisher) (d : Delivery)
    → (c : Accounts taken d) → IsInOrder c.given p
    → Accounts taken (record d { publisher = p })
set_publisher taken p d c h = record {
  listed = c.listed;
  given = c.given;
  in_order = h;
  all = c.all;
  going = c.going;
}

finish_payload-Accounts :
    (taken : List EventDescriptor) (e id : ℕ) (ep : Endpoint) (d : Delivery)
    → lookup e d.sink.endpoints ≡ some ep
    → Accounts taken d
    → Accounts taken (finish_payload e id ep d)
unfolding finish_payload set_pending
finish_payload-Accounts taken e id ep d l c = record {
  listed = set_payloads-IsListed (ep.num_payloads - 1) e ep d.sink l c.listed;
  given = c.given;
  in_order = c.in_order;
  all = c.all;
  going = c.going;
}

close_when_done-Accounts :
    (taken : List EventDescriptor) (e : ℕ) (d : Delivery)
    → Accounts taken d
    → Accounts taken (close_when_done e d)
unfolding close_when_done
close_when_done-Accounts taken e d c = elim (Option-cases (lookup e d.sink.endpoints)) [
  | inl n ↦ rw (n, close_when_done) c
  | inr (ep, l) ↦
      let closed = record d { sink = record d.sink { shut_down = e ∷ d.sink.shut_down } } in
      let h = c.listed in
      rw (l, close_when_done)
        (if-Both (Accounts taken) (is_closing ep.status && (ep.num_payloads == 0)) closed d
          (λ last.
            set_sink taken closed.sink d
              record { ready = h.ready; failed = h.failed; ordered = h.ordered } c)
          (λ other. c))
]

-- The end of an acknowledgement.
abbrev close_if : Bool → ℕ → Delivery → Delivery
close_if done e d = if done then close_when_done e d else d

close_if-Accounts :
    (taken : List EventDescriptor) (done : Bool) (e : ℕ) (d : Delivery)
    → Accounts taken d
    → Accounts taken (close_if done e d)
close_if-Accounts taken done e d c =
    if-Both (Accounts taken) done (close_when_done e d) d
      (λ y. close_when_done-Accounts taken e d c) (λ n. c)

acknowledge_value-Accounted :
    (taken : List EventDescriptor) (a : Answers) (e id sequence : ℕ) (value : Payload)
    (ep : Endpoint) (d : Delivery)
    → lookup e d.sink.endpoints ≡ some ep
    → find id d.publisher.payload_list ≡ some value
    → Accepts a
    → Accounts taken d
    → Accounted taken (acknowledge_value a e id sequence value ep d)
unfolding acknowledge_value
acknowledge_value-Accounted taken a e id sequence value ep d l f ok c =
    let (acked, lines, done) = ack value sequence in
    let d' = if done then finish_payload e id ep d else d in
    let c' : Accounts taken d' =
      if-Both (Accounts taken) done (finish_payload e id ep d) d
        (λ y. finish_payload-Accounts taken e id ep d l c) (λ n. c) in
    let (p, q, order) =
      process_ack-IsInOrder c'.given id sequence d'.publisher c'.in_order _ refl in
    let d'' = record d' { publisher = p } in
    let c'' = set_publisher taken p d' c' order in
    let v = find-IsValid id d.publisher.payload_list value c.in_order.holds.valid f in
    let complete_is = complete_lem acked (ack-IsValid value sequence v) in
    elim (Bool-cases (length (drop acked.ack_events acked.events) == 0)) [
      | inr part ↦ (
        close_if done e d'',
        rw (q, acknowledge_value) (rw (complete_is ∙ ap some part, acknowledge_value) refl),
        close_if-Accounts taken done e d'' c'',
      )
      | inl whole ↦
          let (last, t, k) = try_again taken a d'' ok c'' in
          (
            close_if done e last,
            rw (q, acknowledge_value)
                (rw (complete_is ∙ ap some whole, acknowledge_value) (rw t refl)),
            close_if-Accounts taken done e last k,
          )
    ]

pub acknowledge-Accounted :
    (taken : List EventDescriptor) (a : Answers) (e id sequence : ℕ) (d : Delivery)
    → (mem id (d.pending e) ≡ true
        → (value : Payload) × (find id d.publisher.payload_list ≡ some value))
    → Accepts a
    → Accounts taken d
    → Accounted taken (acknowledge a e id sequence d)
unfolding acknowledge
acknowledge-Accounted taken a e id sequence d known ok c =
    elim (Bool-cases (mem id (d.pending e))) [
      | inr n ↦ rw (n, acknowledge) (d, refl, c)
      | inl y ↦
          rw (y, acknowledge)
            (elim (Option-cases (lookup e d.sink.endpoints)) [
              | inl n ↦ rw (n, acknowledge) (d, refl, c)
              | inr (ep, l) ↦
                  let (value, f) = known y in
                  rw (l, acknowledge)
                    (rw (f, acknowledge)
                      (acknowledge_value-Accounted taken a e id sequence value ep d l f ok c))
            ])
    ]

-- An endpoint that is not there, by the list of all.
absent : (e : ℕ) (s : Sink) → IsListed s → count e s.ordered_list ≡ 0 → lookup e s.endpoints ≡ none
absent e s h n = elim (Option-cases (lookup e s.endpoints)) [
  | inl none_there ↦ none_there
  | inr (ep, l) ↦ ground (arith, h.ordered e, l, n)
]

-- The endpoint that is added anew.
abbrev add_if : Bool → ℕ → Delivery → Delivery
add_if again e d = if again then record d { sink = add_endpoint e d.sink } else d

add_if-Accounts :
    (taken : List EventDescriptor) (again : Bool) (e : ℕ) (d : Delivery)
    → count e d.sink.ordered_list ≡ 0
    → Accounts taken d
    → Accounts taken (add_if again e d)
add_if-Accounts taken again e d n c =
    let s = add_endpoint e d.sink in
    if-Both (Accounts taken) again (record d { sink = s }) d
      (λ y.
        set_sink taken s d (add_endpoint-IsListed e d.sink (absent e d.sink c.listed n) c.listed) c)
      (λ x. c)

removed : (e : ℕ) (ep : Endpoint) (s : Sink) → lookup e (remove_endpoint e ep s).endpoints ≡ none
unfolding remove_endpoint
removed e ep s = lookup-delete e e _ ∙ if-true (e == e) _ _ (beq_refl e)

pub finished-Accounted :
    (taken : List EventDescriptor) (a : Answers) (first : List ℕ) (configured again : Bool) (e : ℕ)
    (d : Delivery)
    → Accepts a
    → Accounts taken d
    → Accounted taken (finished a first configured again e d)
unfolding finished set_pending
finished-Accounted taken a first configured again e d ok c =
    elim (Option-cases (lookup e d.sink.endpoints)) [
      | inl n ↦ (d, rw (n, finished) refl, c)
      | inr (ep, l) ↦
          let s = remove_endpoint e ep d.sink in
          let h = remove_endpoint-IsListed e ep d.sink l c.listed in
          let d' = record d { sink = s } in
          let back = record d' {
            publisher = pull_back_pending (range first (d.pending e)) d.publisher;
          } in
          let lone = set_pending e [] d' in
          let lone_back = set_pending e [] back in
          let gone : count e s.ordered_list ≡ 0 =
            h.ordered e ∙ ap (λ o. once (is_there o)) (removed e ep d.sink) in
          let c' : Accounts taken lone = record {
            listed = h;
            given = c.given;
            in_order = c.in_order;
            all = c.all;
            going = c.going;
          } in
          let (r, t, k, o) =
            try_queue_held-Returns taken a lone_back ok (given_back taken first e s d h c) in
          let alone = add_if-Accounts taken again e lone gone c' in
          let more = add_if-Accounts taken again e r (ap (count e) o ∙ gone) k in
          rw (l, finished)
            (if-Both (Accounted taken) (configured && not d.shutting_down)
              (if ep.num_payloads == 0
                then some (add_if again e lone)
                else elim (try_queue_held a lone_back) [
                  | none ↦ none
                  | some next ↦ some (add_if again e next)
                ])
              (some lone)
              (λ yes.
                if-Both (Accounted taken) (ep.num_payloads == 0) (some (add_if again e lone)) _
                  (λ done. (add_if again e lone, refl, alone))
                  (λ pending. (
                    add_if again e r,
                    ap
                        (λ (x : Option Delivery). elim x [
                          | none ↦ none
                          | some next ↦ some (add_if again e next)
                        ])
                        t,
                    more,
                  )))
              (λ no. (lone, refl, c')))
    ]
