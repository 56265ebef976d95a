-- ===== src/Payload/Invariant.antt =====
-- The well-formedness of a payload (lc-lib/payload/payload.go): its slices stay in range, and the
-- sequence numbers count exactly the events that are not acknowledged.
use log_courier.Common.{
  ℕ, ◌+◌, ◌-◌, ◌≤◌, ◌≡◌, refl, List, [], ◌∷◌, Option, some, none, length, take, drop, arith,
  length-drop, slice_from-some, slice_to-some, ◌==◌,
}
use log_courier.Core.{EventDescriptor}
use log_courier.Payload.{Payload, new_payload, ack, reset_sequence, rollup, unacked, complete}

pub record IsValid (pp : Payload) : Type 0 where
  pub in_range : pp.ack_events ≤ length pp.events
  pub counted : length pp.events - pp.ack_events ≡ pp.sequence_len - pp.last_sequence

pub new_payload-IsValid : (events : List EventDescriptor) → IsValid (new_payload events)
unfolding new_payload
new_payload-IsValid events = record { in_range = omega arith; counted = refl }

pub ack-IsValid : (pp : Payload) (sequence : ℕ) → IsValid pp → IsValid (ack pp sequence).0
unfolding ack
ack-IsValid pp sequence v = ground arith

pub reset_sequence-IsValid : (pp : Payload) → IsValid pp → IsValid (reset_sequence pp)
unfolding reset_sequence
reset_sequence-IsValid pp v = record { in_range = v.in_range; counted = omega arith }

-- The state that `Rollup` leaves.
abbrev pub rolled : Payload → Payload
rolled pp = record pp {
  processed = pp.processed + pp.ack_events;
  events = drop pp.ack_events pp.events;
  ack_events = 0;
}

pub rollup-IsValid : (pp : Payload) → IsValid pp → IsValid (rolled pp)
rollup-IsValid pp v = record {
  in_range = omega arith;
  counted = omega (arith, length-drop pp.ack_events pp.events, v.counted);
}

pub rollup_lem :
    (pp : Payload) → IsValid pp → rollup pp ≡ some (rolled pp, take pp.ack_events pp.events)
unfolding rollup
rollup_lem pp v =
    rw (slice_to-some pp.ack_events pp.events v.in_range, rollup)
      (rw (slice_from-some pp.ack_events pp.events v.in_range))

pub unacked_lem : (pp : Payload) → IsValid pp → unacked pp ≡ some (drop pp.ack_events pp.events)
unfolding unacked
unacked_lem pp v = slice_from-some pp.ack_events pp.events v.in_range

pub complete_lem :
    (pp : Payload) → IsValid pp → complete pp ≡ some (length (drop pp.ack_events pp.events) == 0)
unfolding complete
complete_lem pp v = rw (unacked_lem pp v, complete)

-- The calls that the publisher and the endpoints make on a payload.
pub data Call : Type 0 where
  acks : ℕ → Call
  resets : Call
  rolls : Call

pub after_rollup : Option (Payload × List EventDescriptor) → Option Payload
after_rollup none = none
after_rollup (some (pp, _)) = some pp

-- One call, and a sequence of calls; `none` is a panic.
pub step : Payload → Call → Option Payload
step pp (acks sequence) = some (ack pp sequence).0
step pp resets = some (reset_sequence pp)
step pp rolls = after_rollup (rollup pp)

pub run : Payload → List Call → Option Payload
run pp [] = some pp
run pp (c ∷ cs) = elim (step pp c) [ none ↦ none | some next ↦ run next cs ]

step-IsValid :
    (pp : Payload) (c : Call)
    → IsValid pp
    → (next : Payload) × (step pp c ≡ some next) × IsValid next
unfolding step after_rollup
step-IsValid pp (acks sequence) v = ((ack pp sequence).0, refl, ack-IsValid pp sequence v)
step-IsValid pp resets v = (reset_sequence pp, refl, reset_sequence-IsValid pp v)
step-IsValid pp rolls v = (rolled pp, rw (rollup_lem pp v), rollup-IsValid pp v)

run-IsValid :
    (pp : Payload) (cs : List Call)
    → IsValid pp
    → (last : Payload) × (run pp cs ≡ some last) × IsValid last
unfolding run
run-IsValid pp [] v = (pp, refl, v)
run-IsValid pp (c ∷ cs) v =
    let (next, e, w) = step-IsValid pp c v in
    let (last, e', w') = run-IsValid next cs w in (last, rw (e, run) e', w')

-- From a new payload, no sequence of Ack, ResetSequence and Rollup calls, whatever sequence numbers
-- the servers acknowledge, makes a slice panic: the calls return, and leave a payload whose
-- acknowledged events lie within its events, with as many unacknowledged events as its sequence
-- numbers say.
pub run-new_payload-IsValid :
    (events : List EventDescriptor) (cs : List Call)
    → (last : Payload) × (run (new_payload events) cs ≡ some last) × IsValid last
run-new_payload-IsValid events cs = run-IsValid (new_payload events) cs (new_payload-IsValid events)
