-- ===== src/Registrar/View.antt =====
-- The registrar (lc-lib/registrar) seen as what it holds of each stream by itself.
use mathlib.Core.Option
use log_courier.Common.{
  nat_eq, sym, append-nil, string_eq, map, inl, inr, Option-cases, ℕ, ◌≡◌, refl, ap, ◌∙◌, List, [],
  ◌∷◌, ◌++◌, Option, none, some, arith, ◌==◌, if◌then◌else◌, lookup, lookup-insert, lookup-delete,
}
use log_courier.Core.{EventDescriptor}
use log_courier.Registrar.{
  FileState, State, EventProcessor, ack_event, discover_event, renamed_event, deleted_event,
  process_ack, process_renamed, process, process_spool, run, set_offset,
}

-- The offset of the last event of a stream, or `d` if it has none.
unfoldable pub last_offset : ℕ → ℕ → List EventDescriptor → ℕ
last_offset s d [] = d
last_offset s d (event ∷ events) =
    last_offset s (if event.stream == s then event.offset else d) events

-- What one event means for one stream, which knows nothing of the others.
abbrev pub meaning : ℕ → EventProcessor → Option FileState → Option FileState
meaning s (ack_event events) none = none
meaning s (ack_event events) (some fs) =
    some (record fs { offset = last_offset s fs.offset events })
meaning s (discover_event stream source offset ids) fs =
    if stream == s then some (record { ids = ids; source = source; offset = offset }) else fs
meaning s (renamed_event stream source) none = none
meaning s (renamed_event stream source) (some fs) =
    if stream == s then some (record fs { source = source }) else some fs
meaning s (deleted_event stream) fs = if stream == s then none else fs

pub meaning_of : ℕ → List EventProcessor → Option FileState → Option FileState
meaning_of s [] fs = fs
meaning_of s (event ∷ spool) fs = meaning_of s spool (meaning s event fs)

set_offset_view :
    (s stream offset : ℕ) (found : Option FileState) (state : State)
    → lookup stream state ≡ found
    → lookup s (set_offset stream offset found state)
      ≡ Option.map
          (λ (fs : FileState). record fs { offset = if stream == s then offset else fs.offset })
          (lookup s state)
unfolding set_offset
set_offset_view s stream offset none state h = ground (arith)
set_offset_view s stream offset (some fs) state h =
    ground (arith, lookup-insert stream s (record fs { offset = offset }) state)

process_ack_view :
    (s : ℕ) (events : List EventDescriptor) (state : State)
    → lookup s (process_ack events state) ≡ meaning s (ack_event events) (lookup s state)
unfolding process_ack last_offset
process_ack_view s [] state = ground arith
process_ack_view s (event ∷ events) state = ground (
  arith,
  process_ack_view s events
      (set_offset event.stream event.offset (lookup event.stream state) state),
  set_offset_view s event.stream event.offset (lookup event.stream state) state refl,
)

-- The state of a stream after an event is what the event means for it.
lookup-process :
    (s : ℕ) (event : EventProcessor) (state : State)
    → lookup s (process event state) ≡ meaning s event (lookup s state)
unfolding process process_renamed
lookup-process s (ack_event events) state = process_ack_view s events state
lookup-process s (discover_event stream source offset ids) state = lookup-insert stream s _ state
lookup-process s (renamed_event stream source) state = elim (Option-cases (lookup stream state)) [
  | inl e ↦ rw (e, process_renamed) (ground arith)
  | inr (fs, e) ↦
      rw (e, process_renamed)
        (ground (arith, lookup-insert stream s (record fs { source = source }) state))
]
lookup-process s (deleted_event stream) state = lookup-delete stream s state

process_spool_view :
    (s : ℕ) (spool : List EventProcessor) (state : State)
    → lookup s (process_spool spool state) ≡ meaning_of s spool (lookup s state)
unfolding process_spool meaning_of
process_spool_view s [] state = refl
process_spool_view s (event ∷ spool) state =
    process_spool_view s spool (process event state)
    ∙ ap (meaning_of s spool) (lookup-process s event state)

pub flat : List (List EventProcessor) → List EventProcessor
flat [] = []
flat (spool ∷ spools) = spool ++ flat spools

meaning_of-append :
    (s : ℕ) (xs ys : List EventProcessor) (fs : Option FileState)
    → meaning_of s (xs ++ ys) fs ≡ meaning_of s ys (meaning_of s xs fs)
unfolding meaning_of
meaning_of-append s [] ys fs = refl
meaning_of-append s (x ∷ xs) ys fs = meaning_of-append s xs ys (meaning s x fs)

-- However the events are cut into spools, the registrar ends with what they mean, in their order,
-- for each stream by itself.
pub lookup-run :
    (s : ℕ) (spools : List (List EventProcessor)) (state : State)
    → lookup s (run spools state).0 ≡ meaning_of s (flat spools) (lookup s state)
unfolding run flat meaning_of
lookup-run s [] state = refl
lookup-run s (spool ∷ spools) state =
    lookup-run s spools (process_spool spool state)
    ∙ ap (meaning_of s (flat spools)) (process_spool_view s spool state)
    ∙ sym (meaning_of-append s spool (flat spools) (lookup s state))

abbrev pub acks : List (List EventDescriptor) → List EventProcessor
acks = map ack_event

unfoldable pub joined : List (List EventDescriptor) → List EventDescriptor
joined [] = []
joined (events ∷ rest) = events ++ joined rest

last_offset-append :
    (s d : ℕ) (xs ys : List EventDescriptor)
    → last_offset s d (xs ++ ys) ≡ last_offset s (last_offset s d xs) ys
unfolding last_offset
last_offset-append s d [] ys = refl
last_offset-append s d (x ∷ xs) ys =
    last_offset-append s (if x.stream == s then x.offset else d) xs ys

meaning_of-acks :
    (s : ℕ) (events : List (List EventDescriptor)) (found : Option FileState)
    → meaning_of s (acks events) found
      ≡ Option.map
          (λ (fs : FileState). record fs { offset = last_offset s fs.offset (joined events) })
          found
unfolding meaning_of joined last_offset
meaning_of-acks s [] none = refl
meaning_of-acks s [] (some fs) = refl
meaning_of-acks s (es ∷ rest) none = meaning_of-acks s rest none
meaning_of-acks s (es ∷ rest) (some fs) =
    rw (last_offset-append s fs.offset es (joined rest))
      (meaning_of-acks s rest (some (record fs { offset = last_offset s fs.offset es })))

-- Acknowledgements alone neither make nor forget a stream, and leave a tracked one with its own
-- file name and identifiers and the offset of the last of its events that was acknowledged.
pub lookup-run-acks :
    (s : ℕ) (events : List (List EventDescriptor)) (state : State)
    → lookup s (run (acks events ∷ []) state).0
      ≡ Option.map
          (λ (fs : FileState). record fs { offset = last_offset s fs.offset (joined events) })
          (lookup s state)
unfolding flat
lookup-run-acks s events state =
    lookup-run s (acks events ∷ []) state
    ∙ rw (append-nil (acks events)) (meaning_of-acks s events (lookup s state))
