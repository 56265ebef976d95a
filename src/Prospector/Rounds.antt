-- ===== src/Prospector/Rounds.antt =====
-- lc-lib/prospector/prospector.go: the iterations of the prospector, and its start. The wait
-- between two iterations and the order in which Go ranges over a map are inputs.
pub mod Iterations
pub mod Loading
pub mod Cleaning
pub mod Launches
use log_courier.Common.{
  ℕ, zero, suc, ◌+◌, ◌-◌, ◌%◌, ◌^◌, Bool, true, false, not, ◌&&◌, String, List, [], ◌∷◌, ◌++◌,
  Option, none, some, ltb, leb, ◌==◌, if◌then◌else◌, Assoc, Eq, lookup, insert, delete, string_eq,
}
use log_courier.Registrar.{FileStateOs, FileState}
use log_courier.Prospector.Info.{
  Status, status_ok, status_resume, status_failed, status_invalid, Orphaned, orphaned_no,
  orphaned_maybe, orphaned_yes, FileInfo, Error, skip_error, other_error, ProspectorInfo,
  FinishStatus, same_as, stat, from_file_info, from_file_state, invalid, set_harvester_stopped,
  update, seen,
}
use log_courier.Prospector.State.{
  Action, Prospector, act, alloc, deleted, discover, finish, is_invalid, is_no, launch, mem, poll,
  remove, renamed, set_index, set_info, set_orphaned, start_harvester, start_harvester_with_offset,
  store, unset_index, unstore,
}
use log_courier.Prospector.Scan.{
  Lookup, StatResult, Visit, after_lookup, conclude, decide, discovered, duplicate, duplicate_error,
  find_ids, flag_duplicate_error, is_candidate, is_dead, lookup_file_ids, message_of, missing,
  previous, process_error, process_file, process_found, process_known, process_new, range, rename,
  resume, rotated, same_error, set_invalid, stat_error, stats, take_previous,
}

-- The cleaning of `runOnce` for an info, with the answer of its harvester's channel.
unfoldable pub forget : ℕ → Prospector → Prospector
unfolding set_orphaned act
forget id p = act (deleted id) (set_orphaned id orphaned_yes p)

unfoldable pub clean_orphan : Option FinishStatus → ℕ → Prospector → Prospector
unfolding poll unstore
clean_orphan answer id p =
    let p' = poll answer id p in if (p'.infos id).running then p' else unstore id p'

unfoldable pub clean_info : Option FinishStatus → ℕ → Orphaned → Prospector → Prospector
unfolding clean_orphan forget unset_index
clean_info answer id orphaned_no p =
    let info = p.infos id in
    if leb p.iteration info.last_seen then p else forget id (unset_index info.file p)
clean_info answer id orphaned_maybe p = forget id (clean_orphan answer id p)
clean_info answer id orphaned_yes p = clean_orphan answer id p

unfoldable pub clean : (ℕ → Option FinishStatus) → List ℕ → Prospector → Prospector
unfolding clean_info
clean finished [] p = p
clean finished (id ∷ ids) p =
    clean finished ids (clean_info (finished id) id (p.infos id).orphaned p)

-- The files of all paths, in their order.
unfoldable pub scan : List Visit → Prospector → Option Prospector
unfolding process_file
scan [] p = some p
scan (v ∷ visits) p = elim (process_file v p) [ none ↦ none | some p' ↦ scan visits p' ]

-- What an iteration meets.
pub record Iteration : Type 0 where
  pub started : ℕ
  pub visits : List Visit
  pub finished : ℕ → Option FinishStatus
  pub first : List ℕ

-- An iteration up to the wait for the next.
unfoldable pub run_once : Iteration → Prospector → Option Prospector
unfolding scan clean range
run_once i p = elim (scan i.visits (record p { iteration = (p.iteration + 1) % 2 ^ 32 })) [
  | none ↦ none
  | some p' ↦
      some
        (record (clean i.finished (range i.first p'.prospectors)
          (record p' { from_beginning = true })) { last_scan = i.started })
]

unfoldable pub run : List Iteration → Prospector → Option Prospector
unfolding run_once
run [] p = some p
run (i ∷ iterations) p = elim (run_once i p) [ none ↦ none | some p' ↦ run iterations p' ]

-- `loadCallback` for the files of the registry, and `init`; none is that there was no registry.
unfoldable pub load : List (String × FileState) → Prospector → Prospector
unfolding alloc set_index from_file_state
load [] p = p
load ((file, state) ∷ states) p =
    load states (set_index file p.allocated (alloc (from_file_state file state) p))

unfoldable pub store_all : Assoc String ℕ → Prospector → Prospector
unfolding store
store_all [] p = p
store_all ((file, id) ∷ index) p = store_all index (store id p)

abbrev no_file : FileInfo
no_file = record { ids = record { inode = 0; device = 0 }; size = 0; mod_time = 0; is_dir = false }

unfoldable pub empty : (from_beginning : Bool) → Prospector
unfolding from_file_info
empty from_beginning = record {
  index = [];
  infos = λ id. from_file_info "" no_file;
  prospectors = [];
  allocated = 0;
  from_beginning = from_beginning;
  iteration = 0;
  last_scan = 0;
  actions = [];
}

unfoldable pub new_prospector :
    (from_beginning : Bool) → Option (List (String × FileState)) → Prospector
unfolding empty load store_all
new_prospector from_beginning none = empty from_beginning
new_prospector from_beginning (some states) =
    let p = load states (empty true) in store_all p.index p
