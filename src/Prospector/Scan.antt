-- ===== src/Prospector/Scan.antt =====
-- lc-lib/prospector/prospector.go: the look at a file. What the system and the harvesters answer,
-- the clock, and the order in which Go ranges over a map, are inputs.
pub mod Index
pub mod Files
pub mod Steps
pub mod Moves
pub mod Visits
pub mod Harvesters
pub mod Turns
pub mod Renames
use log_courier.Common.{
  ℕ, zero, suc, ◌+◌, ◌-◌, ◌%◌, ◌^◌, Bool, true, false, not, ◌&&◌, String, List, [], ◌∷◌, ◌++◌,
  Option, none, some, ltb, leb, ◌==◌, if◌then◌else◌, Assoc, Eq, lookup, insert, delete, string_eq,
}
use log_courier.Registrar.{FileStateOs, FileState}
use log_courier.Prospector.Info.{
  Status, status_ok, status_resume, status_failed, status_invalid, Orphaned, orphaned_no,
  orphaned_maybe, orphaned_yes, FileInfo, Error, skip_error, other_error, ProspectorInfo,
  FinishStatus, same_as, stat, from_file_info, from_file_state, invalid, set_harvester_stopped,
  update, seen,
}
use log_courier.Prospector.State.{
  Action, Prospector, act, alloc, deleted, discover, finish, is_invalid, is_no, launch, mem, poll,
  remove, renamed, set_index, set_info, set_orphaned, start_harvester, start_harvester_with_offset,
  store, unset_index, unstore,
}

-- What `os.Stat` answers.
pub data StatResult : Type 0 where
  stats : FileInfo → StatResult
  stat_error : String → StatResult

-- What a call of `processFile` meets: `finished` is what the channels of the harvesters hold, and
-- `first` the infos that the range over `prospectors` visits first.
pub record Visit : Type 0 where
  pub file : String
  pub result : StatResult
  pub now : ℕ
  pub dead_time : ℕ
  pub finished : ℕ → Option FinishStatus
  pub first : List ℕ

pub data Lookup : Type 0 where
  missing duplicate : Lookup
  previous : ℕ → Lookup

-- The conditions of the loop of `lookupFileIds` for an info.
unfoldable pub is_candidate : String → FileInfo → ProspectorInfo → Bool
unfolding same_as
is_candidate file info ki =
    not (is_invalid ki.status)
    && not (is_no ki.orphaned && string_eq.beq ki.file file)
    && same_as ki.identity info

-- The loop of `lookupFileIds`.
unfoldable pub find_ids : String → FileInfo → Prospector → List ℕ → Lookup
unfolding is_candidate
find_ids file info p [] = missing
find_ids file info p (id ∷ ids) =
    let rest = find_ids file info p ids in
    let ki = p.infos id in
    if is_candidate file info ki
    then (if ki.last_seen == p.iteration then duplicate else previous id)
    else rest

-- A map's range: some infos of the map first, and then the others.
unfoldable pub range : (first ids : List ℕ) → List ℕ
unfolding mem remove
range [] ids = ids
range (id ∷ first) ids =
    let with = range first (remove id ids) in
    let without = range first ids in if mem id ids then id ∷ with else without

-- The previous info leaves the collections.
unfoldable pub take_previous : ℕ → Prospector → Prospector
unfolding unstore unset_index set_orphaned
take_previous id p =
    let ki = p.infos id in
    let p' = unstore id p in
    if is_no ki.orphaned then unset_index ki.file p' else set_orphaned id orphaned_no p'

-- An error stub, with which `processFile` and `flagDuplicateError` end.
unfoldable pub set_invalid : String → Error → Prospector → Prospector
unfolding alloc store set_index invalid seen
set_invalid file error p =
    set_index file p.allocated (store p.allocated (alloc (seen p.iteration (invalid file error)) p))

abbrev pub duplicate_error : Error
duplicate_error = skip_error "Duplicate"

is_duplicate : Option Error → Bool
is_duplicate (some (skip_error message)) = string_eq.beq message "Duplicate"
is_duplicate _ = false

-- The stub that is known for the file, if one is, may say so already.
unfoldable pub flag_duplicate_error : String → Option ℕ → Prospector → Prospector
unfolding set_invalid is_duplicate
flag_duplicate_error file none p = set_invalid file duplicate_error p
flag_duplicate_error file (some id) p =
    let info = p.infos id in
    if is_invalid info.status && is_duplicate info.err
    then p
    else set_invalid file duplicate_error p

unfoldable pub is_dead : Visit → FileInfo → Bool
is_dead v info = ltb v.dead_time (v.now - info.mod_time)

-- Whether a harvester that does not run is to resume, and the status; none is the panic where the
-- identity has no file information.
unfoldable pub decide : Visit → FileInfo → ProspectorInfo → Status → Option (Status × Bool)
unfolding is_dead
decide v info pi status_resume = some (
    if pi.finish_offset == info.size && is_dead v info
    then (status_ok, false)
    else (status_resume, true))
decide v info pi status_failed = some (status_failed, true)
decide v info pi status = elim (stat pi.identity) [
  | none ↦ none
  | some old ↦ some (status, not (old.mod_time == info.mod_time))
]

-- The end of `processFile`.
unfoldable pub conclude : Visit → FileInfo → ℕ → Status × Bool → Prospector → Prospector
unfolding set_info update start_harvester_with_offset set_index
conclude v info id (status, resume) p =
    let p' = set_info id (update info p.iteration (record (p.infos id) { status = status })) p in
    set_index v.file id
      (if resume then start_harvester_with_offset id (p.infos id).finish_offset p' else p')

unfoldable pub resume : Visit → FileInfo → ℕ → Prospector → Option Prospector
unfolding poll decide conclude
resume v info id p =
    let p' = poll (v.finished id) id p in
    if (p'.infos id).running
    then some (conclude v info id ((p'.infos id).status, false) p')
    else elim (decide v info (p'.infos id) (p'.infos id).status) [
      | none ↦ none
      | some decision ↦ some (conclude v info id decision p')
    ]

-- A renamed file: the info moves to its new name.
unfoldable pub rename : Visit → ℕ → Prospector → Prospector
unfolding take_previous set_info act store
rename v id p =
    let p' = take_previous id p in
    store id (act (renamed id v.file) (set_info id (record (p'.infos id) { file = v.file }) p'))

-- A file that was not known: it is too old, or its harvester starts.
unfoldable pub discovered : Visit → FileInfo → Prospector → Prospector
unfolding alloc act store start_harvester is_dead from_file_info
discovered v info p =
    let id = p.allocated in
    let pi = from_file_info v.file info in
    store id (
      if ltb info.mod_time p.last_scan && is_dead v info
      then act (discover id v.file info.size) (alloc (record pi { finish_offset = info.size }) p)
      else start_harvester id info (alloc pi p))

-- A file that is no longer the one that had its name.
unfoldable pub rotated : Visit → FileInfo → Prospector → Prospector
unfolding alloc store start_harvester from_file_info
rotated v info p =
    store p.allocated (start_harvester p.allocated info (alloc (from_file_info v.file info) p))

unfoldable pub lookup_file_ids : Visit → FileInfo → Prospector → Lookup
unfolding find_ids range
lookup_file_ids v info p = find_ids v.file info p (range v.first p.prospectors)

-- What follows `lookupFileIds`: `stub` is the known stub, and `otherwise` what a new file gets.
unfoldable pub after_lookup :
    Visit
    → FileInfo
    → (stub : Option ℕ) → (otherwise : Prospector → Prospector) → Lookup
    → Prospector
    → Option Prospector
unfolding resume rename flag_duplicate_error
after_lookup v info stub otherwise missing p = resume v info p.allocated (otherwise p)
after_lookup v info stub otherwise duplicate p = some (flag_duplicate_error v.file stub p)
after_lookup v info stub otherwise (previous id) p = resume v info id (rename v id p)

unfoldable pub process_new : Visit → FileInfo → Option ℕ → Prospector → Option Prospector
unfolding after_lookup lookup_file_ids discovered
process_new v info stub p =
    after_lookup v info stub (discovered v info) (lookup_file_ids v info p) p

unfoldable pub process_known : Visit → FileInfo → ℕ → Prospector → Option Prospector
unfolding after_lookup lookup_file_ids rotated resume same_as set_orphaned
process_known v info id p =
    if same_as (p.infos id).identity info
    then resume v info id p
    else (let p' = set_orphaned id orphaned_maybe p in
        after_lookup v info none (rotated v info) (lookup_file_ids v info p') p')

unfoldable pub message_of : Error → String
message_of (skip_error message) = message
message_of (other_error message) = message

unfoldable pub same_error : Option Error → Error → Bool
unfolding message_of
same_error none error = false
same_error (some old) error = string_eq.beq (message_of old) (message_of error)

-- `processFile` of a file that gives an error.
unfoldable pub process_error : String → Error → Option ℕ → Prospector → Prospector
unfolding set_info set_orphaned set_invalid same_error seen
process_error file error none p = set_invalid file error p
process_error file error (some id) p =
    let info = p.infos id in
    if is_invalid info.status
    then (if same_error info.err error
        then set_info id (seen p.iteration info) p
        else set_invalid file error p)
    else set_invalid file error (set_orphaned id orphaned_maybe p)

unfoldable pub process_found : Visit → FileInfo → Option ℕ → Prospector → Option Prospector
unfolding process_new process_known
process_found v info none p = process_new v info none p
process_found v info (some id) p =
    if is_invalid (p.infos id).status
    then process_new v info (some id) p
    else process_known v info id p

unfoldable pub process_file : Visit → Prospector → Option Prospector
unfolding process_error process_found lookup
process_file v p = elim v.result [
  | stat_error message ↦ some (process_error v.file (other_error message) (lookup v.file p.index) p)
  | stats info ↦
      if info.is_dir
      then some (process_error v.file (skip_error "Directory") (lookup v.file p.index) p)
      else process_found v info (lookup v.file p.index) p
]
