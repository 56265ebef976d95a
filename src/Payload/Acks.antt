-- ===== src/Payload/Acks.antt =====
-- What acknowledgements do to a payload (lc-lib/payload/payload.go).
use log_courier.Common.{
  ℕ, ◌+◌, ◌-◌, ◌≤◌, ◌<◌, ◌≡◌, refl, sym, ◌∙◌, ap, ◌↔◌, true, List, ◌++◌, some, max, length, take,
  drop, arith, drop-drop, drop-all, drop-length, length-take, take-append-drop, pos, ◌+ℤ◌,
}
use log_courier.Core.{EventDescriptor}
use log_courier.Payload.{Payload, ack, reset_sequence, rollup, unacked}
use log_courier.Payload.Invariant.{
  IsValid, ack-IsValid, reset_sequence-IsValid, rollup-IsValid, rolled, rollup_lem, unacked_lem,
}

-- The events that the payload still has to have acknowledged.
abbrev pub remaining : Payload → ℕ
remaining pp = length pp.events - pp.ack_events

-- Acknowledgements may be repeated and reordered: two of them leave the payload as the larger one
-- alone does.
pub ack-ack : (pp : Payload) (s t : ℕ) → (ack (ack pp s).0 t).0 ≡ (ack pp (max s t)).0
unfolding ack
ack-ack pp s t = ground arith

-- An acknowledgement of a valid payload, whose last sequence is within its length, acknowledges
-- as many events as it reports; it reports completion exactly if it is news and no event remains;
-- and the number that remains is the length less the largest sequence seen.
pub ack-remaining :
    (pp : Payload) (s : ℕ)
    → IsValid pp
    → pp.last_sequence ≤ pp.sequence_len
    → (pos (remaining pp) ≡ (ack pp s).1 +ℤ pos (remaining (ack pp s).0))
      × (((ack pp s).2 ≡ true) ↔ ((pp.last_sequence < s) × (remaining (ack pp s).0 ≡ 0)))
      × (remaining (ack pp s).0 ≡ pp.sequence_len - max s pp.last_sequence)
unfolding ack ◌+ℤ◌
ack-remaining pp s v h = (ground arith, (λ e. ground arith, λ e. ground arith), ground arith)

drop-ack-reset_sequence :
    (pp : Payload) (s : ℕ)
    → pp.ack_events ≤ length pp.events
    → drop (ack (reset_sequence pp) s).0.ack_events (ack (reset_sequence pp) s).0.events
      ≡ drop s (drop pp.ack_events pp.events)
unfolding ack reset_sequence
drop-ack-reset_sequence pp s h = ground (
  arith,
  drop-drop pp.ack_events s (pp.ack_events + s) pp.events refl,
  drop-all (pp.ack_events + s) pp.events,
  drop-length pp.events,
)

-- Before a resend the sequence is reset, and then the server's sequence numbers count from the
-- first event that was not acknowledged: its acknowledgement of `s` events takes the first `s` of
-- those, and no other, off the events to send.
pub unacked-ack-reset_sequence :
    (pp : Payload) (s : ℕ)
    → IsValid pp
    → unacked (ack (reset_sequence pp) s).0 ≡ some (drop s (drop pp.ack_events pp.events))
unacked-ack-reset_sequence pp s v =
    unacked_lem _ (ack-IsValid _ s (reset_sequence-IsValid pp v))
    ∙ ap some (drop-ack-reset_sequence pp s v.in_range)

-- Rolling up a valid payload hands out the acknowledged events and keeps the others: nothing is
-- lost or doubled, and what is still to send is the same.
pub rollup-split :
    (pp : Payload)
    → IsValid pp
    → (next : Payload) × (acked : List EventDescriptor) × (rollup pp ≡ some (next, acked))
      × (acked ++ next.events ≡ pp.events)
      × (length acked ≡ pp.ack_events)
      × (unacked next ≡ unacked pp)
rollup-split pp v = (
  rolled pp,
  take pp.ack_events pp.events,
  rollup_lem pp v,
  take-append-drop pp.ack_events pp.events,
  omega (arith, length-take pp.ack_events pp.events, v.in_range),
  unacked_lem (rolled pp) (rollup-IsValid pp v) ∙ sym (unacked_lem pp v),
)
