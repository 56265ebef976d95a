-- ===== src/Publisher/Holds.antt =====
-- What lc-lib/publisher/publisher.go holds: what it does at an acknowledgement keeps the events.
use log_courier.Common.{
  ℕ, ◌-◌, ◌≤◌, ◌≡◌, refl, sym, ap, ◌∙◌, subst, inl, inr, Bool, true, false, Bool-cases, List, [],
  ◌∷◌, ◌++◌, some, length, length-append, arith, append_assoc, append-nil, ◌==◌, ◌&&◌, pos, ◌+ℤ◌,
}
use log_courier.Core.{EventDescriptor}
use log_courier.Payload.{Payload, new_payload}
use log_courier.Payload.Invariant.{IsValid, new_payload-IsValid}
use log_courier.Publisher.{
  Element, Publisher, update, queue_events, forget_resend, release_in_order, count_first,
}
use log_courier.Publisher.Release.{
  AllValid, IsReleased, flat, flat-append, in_flight, release-Releases,
}
use log_courier.Publisher.Updates.{
  KeepsEvents, IsDue, set_resending-KeepsEvents, update-AllValid, update-in_flight, length-update,
  update_again-IsDue,
}

-- The publisher was given these events: what went to the registrar and what is in flight.
pub record Holds (queued : List EventDescriptor) (p : Publisher) : Type 0 where
  pub valid : AllValid p.payload_list
  pub count : p.num_payloads ≡ length p.payload_list
  pub events : flat p.acks ++ in_flight p.payload_list ≡ queued

-- Between two steps all that is acknowledged of the first payload has been released.
pub record IsInOrder (queued : List EventDescriptor) (p : Publisher) : Type 0 where
  pub holds : Holds queued p
  pub released : IsReleased p.payload_list

in_flight-append : (xs ys : List Element) → in_flight (xs ++ ys) ≡ in_flight xs ++ in_flight ys
unfolding in_flight
in_flight-append [] ys = refl
in_flight-append (x ∷ xs) ys =
    ap (◌++◌ x.value.events) (in_flight-append xs ys)
    ∙ sym (append_assoc x.value.events (in_flight xs) (in_flight ys))

AllValid-append :
    (list : List Element) (e : Element)
    → AllValid list
    → IsValid e.value
    → AllValid (list ++ e ∷ [])
AllValid-append [] e v w = (w, tt)
AllValid-append (x ∷ list) e v w = (v.0, AllValid-append list e v.1 w)

IsReleased-append :
    (list : List Element) (e : Element)
    → IsReleased list
    → e.value.ack_events ≡ 0
    → IsReleased (list ++ e ∷ [])
IsReleased-append [] e h k = k
IsReleased-append (x ∷ list) e h k = h

pub update-Holds :
    (queued : List EventDescriptor) (id : ℕ) (f : Payload → Payload) (p : Publisher)
    (resend_list : List ℕ)
    → KeepsEvents f
    → Holds queued p
    → Holds queued
        (record p { payload_list = update id f p.payload_list; resend_list = resend_list })
update-Holds queued id f p resend_list k h = record {
  valid = update-AllValid id f p.payload_list k h.valid;
  count = h.count ∙ sym (length-update id f p.payload_list);
  events = ap (◌++◌ (flat p.acks)) (update-in_flight id f p.payload_list k) ∙ h.events;
}

pub queue_events-IsInOrder :
    (queued events : List EventDescriptor) (p : Publisher)
    → IsInOrder queued p
    → IsInOrder (queued ++ events) (queue_events events p)
unfolding queue_events
queue_events-IsInOrder queued events p h =
    let e : Element = record { id = p.next_id; value = new_payload events } in
    record {
      holds = record {
        valid = AllValid-append p.payload_list e h.holds.valid (new_payload-IsValid events);
        count = omega (arith, h.holds.count, length-append p.payload_list (e ∷ []));
        events =
            ap (◌++◌ (flat p.acks)) (in_flight-append p.payload_list (e ∷ []))
            ∙ sym (append_assoc (flat p.acks) (in_flight p.payload_list) (in_flight (e ∷ [])))
            ∙ ap (λ es. es ++ in_flight (e ∷ [])) h.holds.events
            ∙ ap (◌++◌ queued) (unfold in_flight new_payload in append-nil events);
      };
      released = IsReleased-append p.payload_list e h.released (unfold new_payload in refl);
    }

pub forget_resend-Holds :
    (queued : List EventDescriptor) (id : ℕ) (value : Payload) (done : Bool) (p : Publisher)
    → Holds queued p
    → IsDue id p.payload_list
    → 1 ≤ length p.payload_list
    → Holds queued (forget_resend id value done p)
      × IsDue id (forget_resend id value done p).payload_list
      × (1 ≤ length (forget_resend id value done p).payload_list)
unfolding forget_resend
forget_resend-Holds queued id value done p h due some_payload =
    elim (Bool-cases (value.resending && done)) [
      | inl both ↦ rw both (
        update-Holds queued id (λ v. record v { resending = false }) p _
            (set_resending-KeepsEvents false) h,
        update_again-IsDue id _ p.payload_list due,
        omega (arith, length-update id (λ v. record v { resending = false }) p.payload_list),
      )
      | inr not_both ↦ rw not_both (h, due, some_payload)
    ]

count_first-Holds :
    (queued : List EventDescriptor) (first_ack : Bool) (p : Publisher)
    → Holds queued p
    → IsReleased p.payload_list
    → IsInOrder queued (count_first first_ack p)
unfolding count_first
count_first-Holds queued true p h k = record {
  holds = record { valid = h.valid; count = h.count; events = h.events };
  released = k;
}
count_first-Holds queued false p h k = record { holds = h; released = k }

pub release_front :
    (queued : List EventDescriptor) (id : ℕ) (first_ack : Bool) (p : Publisher)
    (list : List Element)
    → p.payload_list ≡ list
    → Holds queued p
    → IsDue id list
    → 1 ≤ length list
    → (next : Publisher) × (release_in_order list id first_ack p ≡ some next)
      × IsInOrder queued next
unfolding release_in_order
release_front queued id first_ack p [] e h due some_payload = absurd (omega arith)
release_front queued id first_ack p (front ∷ list) e h due some_payload =
    let v = subst AllValid e h.valid in
    elim (Bool-cases (front.id == id)) [
      | inl first ↦
          let (r, q, s) =
            release-Releases (p.out_of_sync +ℤ pos 1) p.out_of_sync (front ∷ list) v in
          (
            record p {
              payload_list = r.payload_list;
              out_of_sync = r.out_of_sync;
              acks = p.acks ++ r.acks;
              num_payloads = p.num_payloads - r.num_complete;
            },
            rw (first, release_in_order) (rw q refl),
            record {
              holds = record {
                valid = s.valid;
                count = omega (arith, s.count, h.count, ap length e);
                events =
                    ap (λ es. es ++ in_flight r.payload_list) (flat-append p.acks r.acks)
                    ∙ append_assoc (flat p.acks) (flat r.acks) (in_flight r.payload_list)
                    ∙ ap (◌++◌ (flat p.acks)) (s.events ∙ ap in_flight (sym e))
                    ∙ h.events;
              };
              released = s.released;
            },
          )
      | inr later ↦
          let quiet : front.value.ack_events ≡ 0 = elim due [
            | inl same ↦ absurd (ground arith)
            | inr none_acked ↦ none_acked
          ] in
          (
            count_first first_ack p,
            rw (later, release_in_order) refl,
            count_first-Holds queued first_ack p h (subst IsReleased (sym e) quiet),
          )
    ]
