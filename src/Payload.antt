-- ===== src/Payload.antt =====
-- lc-lib/payload/payload.go: a spool of events with its acknowledgements. The memory of a payload
-- is a value here; the list elements that are embedded in it are entries of the publisher's lists,
-- and the cached encoding (`payload`) is only ever cleared, so it has no field.
pub mod Invariant
pub mod Acks
mod Tests
use log_courier.Common.{
  ℕ, ◌+◌, ◌-◌, Bool, true, false, not, List, length, Option, some, none, slice_from, slice_to, leb,
  ◌==◌, if◌then◌else◌, ℤ, pos, sub_ℕ,
}
use log_courier.Core.{EventDescriptor}

pub record Payload : Type 0 where
  pub events : List EventDescriptor
  pub last_sequence : ℕ
  pub sequence_len : ℕ
  pub ack_events : ℕ
  pub processed : ℕ
  -- `none` is the empty string, a nonce that is not yet chosen
  pub nonce : Option ℕ
  pub resending : Bool

unfoldable pub new_payload : List EventDescriptor → Payload
new_payload events = record {
  events = events;
  last_sequence = 0;
  sequence_len = length events;
  ack_events = 0;
  processed = 0;
  nonce = none;
  resending = false;
}

unfoldable pub size : Payload → ℕ
size pp = pp.sequence_len

-- `Events()`; `none` is the panic of the slice.
unfoldable pub unacked : Payload → Option (List EventDescriptor)
unacked pp = slice_from pp.ack_events pp.events

-- The payload after `Ack`, the number of events acknowledged, and whether all now are.
unfoldable pub ack : Payload → ℕ → Payload × ℤ × Bool
ack pp sequence =
    if leb sequence pp.last_sequence
    then (pp, pos 0, false)
    else if leb pp.sequence_len sequence
    then (
      record pp { ack_events = length pp.events; last_sequence = sequence },
      sub_ℕ pp.sequence_len pp.last_sequence,
      true,
    )
    else (
      record pp {
        ack_events = pp.ack_events + (sequence - pp.last_sequence);
        last_sequence = sequence;
      },
      pos (sequence - pp.last_sequence),
      false,
    )

unfoldable pub reset_sequence : Payload → Payload
reset_sequence pp = record pp { last_sequence = 0; sequence_len = length pp.events - pp.ack_events }

unfoldable pub has_ack : Payload → Bool
has_ack pp = not (pp.ack_events == 0)

unfoldable pub complete : Payload → Option Bool
unfolding unacked
complete pp = elim (unacked pp) [ none ↦ none | some rest ↦ some (length rest == 0) ]

-- The events acknowledged since the last call, which leave the payload.
unfoldable pub rollup : Payload → Option (Payload × List EventDescriptor)
rollup pp = elim (slice_to pp.ack_events pp.events) [
  | none ↦ none
  | some acked ↦ elim (slice_from pp.ack_events pp.events) [
    | none ↦ none
    | some rest ↦ some (
      record pp { processed = pp.processed + pp.ack_events; events = rest; ack_events = 0 },
      acked,
    )
  ]
]
