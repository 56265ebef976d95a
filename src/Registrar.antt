-- ===== src/Registrar.antt =====
-- lc-lib/registrar: the resume offsets of the tracked files. The state map is an association list
-- by stream; an event changes it, and after each spool of events the map is written by file name.
pub mod View
pub mod Canonical
mod Tests
use log_courier.Common.{
  ℕ, Bool, String, List, [], ◌∷◌, Option, none, some, Assoc, lookup, insert, delete, nat_eq,
  string_eq, if◌then◌else◌,
}
use log_courier.Core.{EventDescriptor}

-- filestate.go and filestateos_linux.go.
pub record FileStateOs : Type 0 where
  pub inode : ℕ
  pub device : ℕ

pub record FileState : Type 0 where
  pub ids : FileStateOs
  pub source : String
  pub offset : ℕ

abbrev pub State : Type 0
State = Assoc ℕ FileState

-- The events of event_ack.go, event_discover.go, event_renamed.go and event_deleted.go. Of the
-- file information of a discovery only the identifiers are kept.
pub data EventProcessor : Type 0 where
  ack_event : List EventDescriptor → EventProcessor
  discover_event : (stream : ℕ) (source : String) (offset : ℕ) (ids : FileStateOs) → EventProcessor
  renamed_event : (stream : ℕ) (source : String) → EventProcessor
  deleted_event : (stream : ℕ) → EventProcessor

-- `state[stream].Offset = offset`, where the stream is found.
set_offset : ℕ → ℕ → Option FileState → State → State
set_offset stream offset none state = state
set_offset stream offset (some fs) state = insert stream (record fs { offset = offset }) state

unfoldable pub process_ack : List EventDescriptor → State → State
unfolding set_offset
process_ack [] state = state
process_ack (event ∷ events) state =
    process_ack events (set_offset event.stream event.offset (lookup event.stream state) state)

unfoldable pub process_renamed : ℕ → String → State → State
process_renamed stream source state = elim (lookup stream state) [
  | none ↦ state
  | some fs ↦ insert stream (record fs { source = source }) state
]

unfoldable pub process_discover : ℕ → String → ℕ → FileStateOs → State → State
process_discover stream source offset ids state =
    insert stream (record { ids = ids; source = source; offset = offset }) state

unfoldable pub process_deleted : ℕ → State → State
process_deleted stream state = delete stream state

unfoldable pub process : EventProcessor → State → State
unfolding process_ack process_renamed process_discover process_deleted
process (ack_event events) state = process_ack events state
process (discover_event stream source offset ids) state =
    process_discover stream source offset ids state
process (renamed_event stream source) state = process_renamed stream source state
process (deleted_event stream) state = process_deleted stream state

-- One spool of `Run`.
unfoldable pub process_spool : List EventProcessor → State → State
process_spool [] state = state
process_spool (event ∷ spool) state = process_spool spool (process event state)

-- `toCanonical`: the states by file name.
unfoldable pub to_canonical_from : Assoc String FileState → State → Assoc String FileState
to_canonical_from canonical [] = canonical
to_canonical_from canonical ((stream, fs) ∷ state) =
    to_canonical_from (insert fs.source fs canonical) state

unfoldable pub to_canonical : State → Assoc String FileState
unfolding to_canonical_from
to_canonical state = to_canonical_from [] state

-- The loop of `Run` over the spools that arrive, with what each `writeRegistry` encodes.
unfoldable pub run : List (List EventProcessor) → State → State × List (Assoc String FileState)
run [] state = (state, [])
run (spool ∷ spools) state =
    let state' = process_spool spool state in
    let (last, written) = run spools state' in (last, to_canonical state' ∷ written)
