-- ===== src/Registrar/Tests.antt =====
-- Runs of lc-lib/registrar at concrete events, and the theorems about it at those.
use log_courier.Common.{
  ℕ, ◌≡◌, refl, String, List, [], ◌∷◌, none, some, lookup, insert, nat_eq, string_eq,
}
use log_courier.Core.{EventDescriptor}
use log_courier.Registrar.{
  FileState, FileStateOs, EventProcessor, ack_event, discover_event, renamed_event, process,
  process_spool, run, to_canonical,
}
use log_courier.Registrar.View.{
  meaning_of, flat, acks, joined, last_offset, lookup-run, lookup-run-acks,
}
use log_courier.Registrar.Canonical.{Has, lookup-to_canonical}

abbrev file : FileStateOs
file = record { inode = 7; device = 1 }

abbrev event : ℕ → ℕ → EventDescriptor
event stream offset = record { stream = stream; offset = offset; payload = [] }

abbrev tracked : FileState
tracked = record { ids = file; source = "/var/log/a"; offset = 10 }

abbrev spools : List (List EventProcessor)
spools =
    (discover_event 1 "/var/log/a" 10 file ∷ [])
    ∷ (ack_event (event 1 20 ∷ event 2 5 ∷ event 1 30 ∷ []) ∷ renamed_event 1 "/var/log/b" ∷ [])
    ∷ []

abbrev after_spools : FileState
after_spools = record { ids = file; source = "/var/log/b"; offset = 30 }

run_lem : (run spools []).0 ≡ (1, after_spools) ∷ []
unfolding run process_spool process insert lookup
run_lem = refl

lookup-run_example : lookup 1 (run spools []).0 ≡ meaning_of 1 (flat spools) none
unfolding lookup
lookup-run_example = lookup-run 1 spools []

lookup-run-acks_example :
    lookup 1 (run (acks ((event 1 20 ∷ []) ∷ (event 1 15 ∷ []) ∷ []) ∷ []) ((1, tracked) ∷ [])).0
    ≡ some (record tracked { offset = 15 })
unfolding lookup last_offset joined
lookup-run-acks_example =
    lookup-run-acks 1 ((event 1 20 ∷ []) ∷ (event 1 15 ∷ []) ∷ []) ((1, tracked) ∷ [])

lookup-to_canonical_example :
    (Has tracked ((1, tracked) ∷ [])
      → lookup "/var/log/a" (to_canonical ((1, tracked) ∷ [])) ≡ some tracked)
    × ((source : String)
        → lookup source (to_canonical ((1, tracked) ∷ [])) ≡ some tracked
        → Has tracked ((1, tracked) ∷ []) × ("/var/log/a" ≡ source))
lookup-to_canonical_example =
    lookup-to_canonical ((1, tracked) ∷ []) tracked ((λ h m. absurd m), tt)
