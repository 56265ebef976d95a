-- ===== src/Publisher/Order.antt =====
-- The registrar gets the events of lc-lib/publisher/publisher.go in their order, whatever the order
-- of the servers' acknowledgements.
use log_courier.Common.{
  ℕ, ◌≤◌, ◌≡◌, drop, refl, sym, subst, Bool, true, false, not, List, [], ◌∷◌, ◌++◌, Option, some,
  none, length, arith, append_assoc, append-nil, ◌==◌, ℤ,
}
use log_courier.Core.{EventDescriptor}
use log_courier.Payload.{Payload, ack, has_ack, reset_sequence}
use log_courier.Payload.Invariant.{IsValid, ack-IsValid, complete_lem}
use log_courier.Publisher.{
  Publisher, Step, queues, acknowledges, pulls_back, resends, new_publisher, find, update,
  forget_resend, count_lines, on_ack, process_ack, pull_back_pending, resend, resend_first, step,
  run, remove,
}
use log_courier.Publisher.Release.{flat, in_flight}
use log_courier.Publisher.Updates.{
  IsDue, ack-KeepsEvents, reset-KeepsEvents, length-update, update-IsReleased, update-IsDue,
  find-IsValid, find-length,
}
use log_courier.Publisher.Holds.{
  Holds, IsInOrder, update-Holds, queue_events-IsInOrder, forget_resend-Holds, release_front,
}

on_ack-IsInOrder :
    (queued : List EventDescriptor) (id : ℕ) (value : Payload) (first_ack : Bool) (lines : ℤ)
    (p : Publisher)
    → IsValid value
    → Holds queued p
    → IsDue id p.payload_list
    → 1 ≤ length p.payload_list
    → (next : Publisher) × (on_ack id value first_ack lines p ≡ some next) × IsInOrder queued next
unfolding on_ack count_lines
on_ack-IsInOrder queued id value first_ack lines p v h due some_payload =
    let done = length (drop value.ack_events value.events) == 0 in
    let p' = forget_resend id value done p in
    let (h', due', some') = forget_resend-Holds queued id value done p h due some_payload in
    let (next, e, k) = release_front queued id first_ack p' p'.payload_list refl h' due' some' in
    (
      count_lines lines next,
      rw (complete_lem value v, on_ack) (rw e refl),
      record {
        holds = record { valid = k.holds.valid; count = k.holds.count; events = k.holds.events };
        released = k.released;
      },
    )

pub process_ack-IsInOrder :
    (queued : List EventDescriptor) (id sequence : ℕ) (p : Publisher)
    → IsInOrder queued p
    → (found : Option Payload) → find id p.payload_list ≡ found
    → (next : Publisher) × (process_ack id sequence p ≡ some next) × IsInOrder queued next
unfolding process_ack
process_ack-IsInOrder queued id sequence p h none e = (p, rw (e, process_ack) refl, h)
process_ack-IsInOrder queued id sequence p h (some value) e =
    let f : Payload → Payload = λ v. (ack v sequence).0 in
    let p' = record p { payload_list = update id f p.payload_list } in
    let v = find-IsValid id p.payload_list value h.holds.valid e in
    let (next, q, k) =
      on_ack-IsInOrder queued id (f value) (not (has_ack value)) (ack value sequence).1 p'
        (ack-IsValid value sequence v)
        (update-Holds queued id f p p.resend_list (ack-KeepsEvents sequence) h.holds)
        (update-IsDue id f p.payload_list h.released)
        (omega (arith, length-update id f p.payload_list, find-length id p.payload_list value e)) in
    (next, rw (e, process_ack) q, k)

reset-IsInOrder :
    (queued : List EventDescriptor) (id : ℕ) (b : Bool) (p : Publisher) (resend_list : List ℕ)
    → IsInOrder queued p
    → IsInOrder queued (record p {
      payload_list = update id (λ v. reset_sequence (record v { resending = b })) p.payload_list;
      resend_list = resend_list;
    })
reset-IsInOrder queued id b p resend_list h =
    let f : Payload → Payload = λ v. reset_sequence (record v { resending = b }) in
    record {
      holds = update-Holds queued id f p resend_list (reset-KeepsEvents b) h.holds;
      released =
          update-IsReleased id f p.payload_list (λ v. unfold reset_sequence in refl) h.released;
    }

pub pull_back_pending-IsInOrder :
    (queued : List EventDescriptor) (ids : List ℕ) (p : Publisher)
    → IsInOrder queued p
    → IsInOrder queued (pull_back_pending ids p)
unfolding pull_back_pending
pull_back_pending-IsInOrder queued [] p h = h
pull_back_pending-IsInOrder queued (id ∷ ids) p h =
    pull_back_pending-IsInOrder queued ids _
      (reset-IsInOrder queued id true p (p.resend_list ++ id ∷ []) h)

pub resend_first-IsInOrder :
    (queued : List EventDescriptor) (ids : List ℕ) (p : Publisher)
    → IsInOrder queued p
    → IsInOrder queued (resend_first ids p)
unfolding resend_first
resend_first-IsInOrder queued [] p h = h
resend_first-IsInOrder queued (id ∷ ids) p h =
    reset-IsInOrder queued id false p (remove id (id ∷ ids)) h

-- The events that the steps queue.
unfoldable pub queued_by : List Step → List EventDescriptor
queued_by [] = []
queued_by (queues events ∷ steps) = events ++ queued_by steps
queued_by (_ ∷ steps) = queued_by steps

run-IsInOrder :
    (queued : List EventDescriptor) (steps : List Step) (p : Publisher)
    → IsInOrder queued p
    → (last : Publisher) × (run steps p ≡ some last) × IsInOrder (queued ++ queued_by steps) last
unfolding run step queued_by
run-IsInOrder queued [] p h = (p, refl, subst (λ es. IsInOrder es p) (sym (append-nil queued)) h)
run-IsInOrder queued (queues events ∷ steps) p h =
    let (last, e, k) =
      run-IsInOrder (queued ++ events) steps _ (queue_events-IsInOrder queued events p h) in
    (last, e, subst (λ es. IsInOrder es last) (append_assoc queued events (queued_by steps)) k)
run-IsInOrder queued (acknowledges id sequence ∷ steps) p h =
    let (next, q, w) = process_ack-IsInOrder queued id sequence p h _ refl in
    let (last, e, k) = run-IsInOrder queued steps next w in (last, rw (q, run) e, k)
run-IsInOrder queued (pulls_back ids ∷ steps) p h =
    run-IsInOrder queued steps _ (pull_back_pending-IsInOrder queued ids p h)
run-IsInOrder queued (resends ∷ steps) p h =
    run-IsInOrder queued steps _ (unfold resend in resend_first-IsInOrder queued p.resend_list p h)

-- However spools are queued, and payloads acknowledged in any order, in part, again, pulled back
-- from failed endpoints and sent again, no step panics; the events that went to the registrar,
-- followed by those of the payloads in flight, are the events that were queued, in order and each
-- once; no acknowledged event of the first payload is held back; and `numPayloads` counts the
-- payloads in flight.
pub run-new_publisher :
    (steps : List Step)
    → (last : Publisher) × (run steps new_publisher ≡ some last) × IsInOrder (queued_by steps) last
run-new_publisher steps = run-IsInOrder [] steps new_publisher (record {
  holds = record {
    valid = unfold new_publisher in tt;
    count = unfold new_publisher in refl;
    events = unfold new_publisher flat in_flight in refl;
  };
  released = unfold new_publisher in tt;
})
