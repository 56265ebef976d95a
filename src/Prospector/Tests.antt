-- ===== src/Prospector/Tests.antt =====
-- Runs of the prospector (lc-lib/prospector): one file that is found, renamed and lost, and one that
-- first gives an error.
use log_courier.Common.{
  ℕ, zero, suc, ◌≡◌, refl, true, false, String, List, [], ◌∷◌, Option, none, some, lookup, insert,
  delete, string_eq, arith, ◌==◌, if◌then◌else◌,
}
use log_courier.Prospector.Info.{
  FileInfo, FinishStatus, ProspectorInfo, found, unknown, status_ok, status_invalid, orphaned_no,
  other_error, same_ids, same_as, from_file_info, invalid, update, seen,
}
use log_courier.Prospector.State.{
  Prospector, Action, discover, renamed, deleted, launch, is_no, mem, remove, set_info, alloc, act,
  store, unstore, set_index, unset_index, set_orphaned, poll, start_harvester_with_offset,
  start_harvester,
}
use log_courier.Prospector.Scan.{
  Visit, stats, stat_error, is_candidate, find_ids, range, take_previous, set_invalid, is_dead,
  decide, conclude, resume, rename, discovered, rotated, lookup_file_ids, after_lookup, process_new,
  process_known, process_error, process_found, process_file,
}
use log_courier.Prospector.Rounds.{
  Iteration, forget, clean_orphan, clean_info, clean, scan, run_once, run, empty, new_prospector,
}
use log_courier.Prospector.Rounds.Loading.{run-new_prospector-IsIndexed}
use log_courier.Prospector.Rounds.Launches.{run-new_prospector-IsAlternating}
use log_courier.Prospector.Rounds.Cleaning.{clean-unseen}
use log_courier.Prospector.Scan.Harvesters.{IsAlternating}
use log_courier.Prospector.Scan.Renames.{IsTheOne, process_file-renamed}

abbrev file_at : (inode size : ℕ) → FileInfo
file_at inode size = record {
  ids = record { inode = inode; device = 1 };
  size = size;
  mod_time = 5;
  is_dir = false;
}

abbrev silent : ℕ → Option FinishStatus
silent id = none

abbrev sees : String → FileInfo → Visit
sees file info = record {
  file = file;
  result = stats info;
  now = 10;
  dead_time = 100;
  finished = silent;
  first = [];
}

abbrev errs : String → Visit
errs file = record {
  file = file;
  result = stat_error "permission denied";
  now = 10;
  dead_time = 100;
  finished = silent;
  first = [];
}

abbrev iteration : List Visit → Iteration
iteration visits = record { started = 1; visits = visits; finished = silent; first = [] }

abbrev actions_of : Option Prospector → List Action
actions_of none = []
actions_of (some p) = p.actions

abbrev moved : List Iteration
moved =
    iteration (sees "a" (file_at 7 20) ∷ [])
    ∷ iteration (sees "b" (file_at 7 30) ∷ [])
    ∷ iteration []
    ∷ []

-- A file's error goes away: its harvester starts, and in the next iteration another one does.
abbrev after_error : List Iteration
after_error =
    iteration (errs "a" ∷ [])
    ∷ iteration (sees "a" (file_at 7 20) ∷ [])
    ∷ iteration (sees "a" (file_at 7 20) ∷ [])
    ∷ []

run-moved :
    actions_of (run moved (new_prospector true none))
    ≡ deleted 0 ∷ renamed 0 "b" ∷ launch 0 0 ∷ discover 0 "a" 0 ∷ []
unfolding run run_once scan clean clean_info clean_orphan forget range remove new_prospector empty
    process_file process_found process_new process_known after_lookup lookup_file_ids find_ids
    is_candidate discovered rotated rename resume conclude decide is_dead take_previous
    start_harvester start_harvester_with_offset poll set_orphaned unset_index set_index unstore
    store act alloc set_info mem same_as same_ids update seen from_file_info lookup insert delete
run-moved = refl

run-after_error :
    actions_of (run after_error (new_prospector true none))
    ≡ deleted 1 ∷ launch 2 0 ∷ discover 2 "a" 0 ∷ deleted 0 ∷ launch 1 0 ∷ discover 1 "a" 0 ∷ []
unfolding run run_once scan clean clean_info clean_orphan forget range remove new_prospector empty
    process_file process_found process_new process_known after_lookup lookup_file_ids find_ids
    is_candidate discovered rotated rename resume conclude decide is_dead take_previous set_invalid
    process_error start_harvester start_harvester_with_offset poll set_orphaned unset_index
    set_index unstore store act alloc set_info mem same_as same_ids update seen invalid
    from_file_info lookup insert delete
run-after_error = refl

run-new_prospector-IsIndexed_example :
    (p : Prospector) × (run after_error (new_prospector true none) ≡ some p)
    × ((file : String) (id : ℕ)
        → lookup file p.index ≡ some id
        → ((p.infos id).file ≡ file)
          × (is_no (p.infos id).orphaned ≡ true)
          × (mem id p.prospectors ≡ true))
run-new_prospector-IsIndexed_example = run-new_prospector-IsIndexed true none after_error

run-new_prospector-IsAlternating_example :
    (p : Prospector) × (run moved (new_prospector true none) ≡ some p) × IsAlternating p.actions
run-new_prospector-IsAlternating_example = run-new_prospector-IsAlternating true none moved

-- The file "a", whose harvester runs, and a stub of "a" that was seen last in the iteration before.
abbrev running_info : ProspectorInfo
running_info = record {
  file = "a";
  identity = found (file_at 7 20);
  last_seen = 2;
  status = status_ok;
  running = true;
  orphaned = orphaned_no;
  finish_offset = 0;
  err = none;
}

abbrev stub : ProspectorInfo
stub = record {
  file = "a";
  identity = unknown;
  last_seen = 1;
  status = status_invalid;
  running = false;
  orphaned = orphaned_no;
  finish_offset = 0;
  err = some (other_error "permission denied");
}

abbrev with_stub : Prospector
with_stub = record {
  index = ("a", 1) ∷ [];
  infos = λ id. if id == 0 then stub else running_info;
  prospectors = 0 ∷ 1 ∷ [];
  allocated = 2;
  from_beginning = true;
  iteration = 2;
  last_scan = 0;
  actions = [];
}

clean-unseen_example : lookup "a" (clean silent (1 ∷ 0 ∷ []) with_stub).index ≡ none
unfolding mem
clean-unseen_example = clean-unseen silent (1 ∷ 0 ∷ []) with_stub 0 refl refl refl

abbrev next_iteration : Prospector
next_iteration = record with_stub { iteration = 3 }

-- The stub is no candidate.
only_running :
    (other : ℕ)
    → mem other (0 ∷ 1 ∷ []) ≡ true
    → is_candidate "b" (file_at 7 30) (next_iteration.infos other) ≡ true
    → other ≡ 1
unfolding mem is_candidate same_as same_ids
only_running zero m c = cc
only_running (suc zero) m c = refl
only_running (suc (suc other)) m c = ground (arith, m)

running_is_one : IsTheOne (sees "b" (file_at 7 30)) (file_at 7 30) 1 next_iteration
unfolding mem is_candidate same_as same_ids
running_is_one = record { stored = refl; candidate = refl; unseen = refl; only = only_running }

process_file-renamed_example :
    (p' : Prospector) × (process_file (sees "b" (file_at 7 30)) next_iteration ≡ some p')
    × (p'.actions ≡ renamed 1 "b" ∷ [])
    × (lookup "b" p'.index ≡ some 1)
    × ((p'.infos 1).running ≡ true)
    × (string_eq.beq "b" "a" ≡ false
        → is_no (next_iteration.infos 1).orphaned ≡ true
        → lookup "a" p'.index ≡ none)
unfolding lookup
process_file-renamed_example =
    process_file-renamed (sees "b" (file_at 7 30)) (file_at 7 30) 1 next_iteration refl refl refl
      running_is_one refl refl
