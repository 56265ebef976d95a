-- ===== src/Publisher/Delivery/Accounts.antt =====
-- Whatever the transports report, the publisher of lc-lib/publisher/publisher.go accounts for all events.
use log_courier.Common.{
  ℕ, ◌≡◌, refl, inl, inr, Option-cases, List, [], Option, some, ◌==◌, if◌then◌else◌, if-Both,
  lookup, nat_eq,
}
use log_courier.Core.{EventDescriptor}
use log_courier.Endpoint.{
  Endpoint, Sink, is_alive, is_failed, is_idle, mark_active, move_failed, recover_failed,
  set_payloads, on,
}
use log_courier.Endpoint.Lists.{IsListed, mark_active-IsListed}
use log_courier.Endpoint.Steps.{
  move_failed-IsListed, recover_failed-IsListed, set_payloads-IsListed, on-IsListed,
}
use log_courier.Prospector.Scan.{range}
use log_courier.Publisher.{pull_back_pending}
use log_courier.Publisher.Order.{pull_back_pending-IsInOrder}
use log_courier.Publisher.Delivery.{
  Delivery, Answers, set_pending, try_queue_held, pull_back, failed, marked_active, started,
  resumed,
}
use log_courier.Publisher.Delivery.Sending.{Accounts, Accepts, try_queue_held-Returns}

-- A result that accounts for the events.
abbrev pub Accounted : List EventDescriptor → Option Delivery → Type 0
Accounted taken result = (d' : Delivery) × (result ≡ some d') × Accounts taken d'

pub set_sink :
    (taken : List EventDescriptor) (s : Sink) (d : Delivery)
    → IsListed s
    → Accounts taken d
    → Accounts taken (record d { sink = s })
set_sink taken s d h c = record {
  listed = h;
  given = c.given;
  in_order = c.in_order;
  all = c.all;
  going = c.going;
}

pub try_again :
    (taken : List EventDescriptor) (a : Answers) (d : Delivery)
    → Accepts a
    → Accounts taken d
    → Accounted taken (try_queue_held a d)
try_again taken a d ok c = let (d', e, c', o) = try_queue_held-Returns taken a d ok c in (d', e, c')

-- Payloads that an endpoint gives back.
pub given_back :
    (taken : List EventDescriptor) (first : List ℕ) (e : ℕ) (s : Sink) (d : Delivery)
    → IsListed s
    → Accounts taken d
    → Accounts taken (
        set_pending e [] (record d {
          publisher = pull_back_pending (range first (d.pending e)) d.publisher;
          sink = s;
        }))
unfolding set_pending
given_back taken first e s d h c = record {
  listed = h;
  given = c.given;
  in_order = pull_back_pending-IsInOrder c.given (range first (d.pending e)) d.publisher c.in_order;
  all = c.all;
  going = c.going;
}

pub failed-Accounted :
    (taken : List EventDescriptor) (a : Answers) (first : List ℕ) (e : ℕ) (d : Delivery)
    → Accepts a
    → Accounts taken d
    → Accounted taken (failed a first e d)
unfolding failed pull_back
failed-Accounted taken a first e d ok c = elim (Option-cases (lookup e d.sink.endpoints)) [
  | inl n ↦ (d, rw (n, failed) refl, c)
  | inr (ep, l) ↦
      let s = move_failed e ep d.sink in
      let h = move_failed-IsListed e ep ep.status d.sink l refl c.listed in
      let d' = record d { sink = s } in
      let s' = on (set_payloads 0) e s in
      let back = set_pending e [] (record d' {
        publisher = pull_back_pending (range first (d.pending e)) d.publisher;
        sink = s';
      }) in
      let h' =
        on-IsListed (set_payloads 0) e s (λ ep' l'. set_payloads-IsListed 0 e ep' s l' h) h in
      rw (l, failed)
        (if-Both (Accounted taken) (is_alive ep.status)
          (if ep.num_payloads == 0 then some d' else try_queue_held a back) (some d)
          (λ alive.
            if-Both (Accounted taken) (ep.num_payloads == 0) (some d') (try_queue_held a back)
              (λ done. (d', refl, set_sink taken s d h c))
              (λ more. try_again taken a back ok (given_back taken first e s' d h' c)))
          (λ dead. (d, refl, c)))
]

marked_active-Accounted :
    (taken : List EventDescriptor) (a : Answers) (e : ℕ) (ep : Endpoint) (d : Delivery)
    → lookup e d.sink.endpoints ≡ some ep
    → Accepts a
    → Accounts taken d
    → Accounted taken (marked_active a e ep d)
unfolding marked_active
marked_active-Accounted taken a e ep d l ok c =
    let d' = record d { sink = mark_active e ep d.sink } in
    let c' =
      set_sink taken (mark_active e ep d.sink) d
        (mark_active-IsListed e ep ep.status d.sink l refl c.listed) c in
    if-Both (Accounted taken) (is_idle ep.status)
      (if ep.num_payloads == 0 then try_queue_held a d' else some d') (some d)
      (λ idle.
        if-Both (Accounted taken) (ep.num_payloads == 0) (try_queue_held a d') (some d')
          (λ none_left. try_again taken a d' ok c') (λ more. (d', refl, c')))
      (λ other. (d, refl, c))

pub started-Accounted :
    (taken : List EventDescriptor) (a : Answers) (e : ℕ) (d : Delivery)
    → Accepts a
    → Accounts taken d
    → Accounted taken (started a e d)
unfolding started
started-Accounted taken a e d ok c = elim (Option-cases (lookup e d.sink.endpoints)) [
  | inl n ↦ (d, rw (n, started) refl, c)
  | inr (ep, l) ↦
      let d' = record d { sink = recover_failed e ep d.sink } in
      rw (l, started)
        (if-Both (Accounted taken) (is_failed ep.status) (some d') (marked_active a e ep d)
          (λ was_failed. (
            d',
            refl,
            set_sink taken d'.sink d (recover_failed-IsListed e ep ep.status d.sink l refl c.listed)
                c,
          ))
          (λ other. marked_active-Accounted taken a e ep d l ok c))
]

pub resumed-Accounted :
    (taken : List EventDescriptor) (a : Answers) (e : ℕ) (d : Delivery)
    → Accepts a
    → Accounts taken d
    → Accounted taken (resumed a e d)
unfolding resumed
resumed-Accounted taken a e d ok c = elim (Option-cases (lookup e d.sink.endpoints)) [
  | inl n ↦ (d, rw (n, resumed) refl, c)
  | inr (ep, l) ↦ rw (l, resumed) (marked_active-Accounted taken a e ep d l ok c)
]
