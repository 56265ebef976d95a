-- ===== src/Prospector/State.antt =====
-- The state of lc-lib/prospector/prospector.go, and the operations on it that are one statement of
-- the code. An info is known by the number of its allocation, `infos` being the memory.
use log_courier.Common.{
  ℕ, suc, Bool, true, false, String, List, [], ◌∷◌, Option, none, some, ◌==◌, if◌then◌else◌, Assoc,
  insert, delete, string_eq,
}
use log_courier.Prospector.Info.{
  Status, status_ok, status_invalid, Orphaned, orphaned_no, FileInfo, ProspectorInfo, FinishStatus,
  set_harvester_stopped,
}

-- The events that the registrar's spool gets, and the harvesters that start and end.
pub data Action : Type 0 where
  discover : (id : ℕ) (file : String) (offset : ℕ) → Action
  renamed : (id : ℕ) (file : String) → Action
  deleted : (id : ℕ) → Action
  launch : (id offset : ℕ) → Action
  finish : (id : ℕ) → Action

-- `actions` has the last one first.
pub record Prospector : Type 0 where
  pub index : Assoc String ℕ
  pub infos : ℕ → ProspectorInfo
  pub prospectors : List ℕ
  pub allocated : ℕ
  pub from_beginning : Bool
  pub iteration : ℕ
  pub last_scan : ℕ
  pub actions : List Action

unfoldable pub mem : ℕ → List ℕ → Bool
mem id [] = false
mem id (other ∷ ids) = let rest = mem id ids in if other == id then true else rest

unfoldable pub remove : ℕ → List ℕ → List ℕ
remove id [] = []
remove id (other ∷ ids) = let rest = remove id ids in if other == id then rest else other ∷ rest

unfoldable pub set_info : ℕ → ProspectorInfo → Prospector → Prospector
set_info id info p = record p { infos = λ other. if id == other then info else p.infos other }

-- A new info, which gets the number `allocated`.
unfoldable pub alloc : ProspectorInfo → Prospector → Prospector
unfolding set_info
alloc info p = record (set_info p.allocated info p) { allocated = suc p.allocated }

unfoldable pub act : Action → Prospector → Prospector
act a p = record p { actions = a ∷ p.actions }

-- `p.prospectors[info] = info` and `delete(p.prospectors, info)`.
unfoldable pub store : ℕ → Prospector → Prospector
unfolding mem
store id p = record p {
  prospectors = if mem id p.prospectors then p.prospectors else id ∷ p.prospectors;
}

unfoldable pub unstore : ℕ → Prospector → Prospector
unfolding remove
unstore id p = record p { prospectors = remove id p.prospectors }

unfoldable pub set_index : String → ℕ → Prospector → Prospector
unfolding insert
set_index file id p = record p { index = insert file id p.index }

unfoldable pub unset_index : String → Prospector → Prospector
unfolding delete
unset_index file p = record p { index = delete file p.index }

unfoldable pub set_orphaned : ℕ → Orphaned → Prospector → Prospector
unfolding set_info
set_orphaned id orphaned p = set_info id (record (p.infos id) { orphaned = orphaned }) p

-- `isRunning`, with the channel's answer.
unfoldable pub poll : Option FinishStatus → ℕ → Prospector → Prospector
unfolding set_info act set_harvester_stopped
poll none id p = p
poll (some status) id p =
    if (p.infos id).running
    then act (finish id) (set_info id (set_harvester_stopped status (p.infos id)) p)
    else p

unfoldable pub start_harvester_with_offset : (id offset : ℕ) → Prospector → Prospector
unfolding set_info act
start_harvester_with_offset id offset p =
    act (launch id offset)
      (set_info id (record (p.infos id) { running = true; status = status_ok }) p)

-- `startHarvester` of an info whose identity is the file information.
unfoldable pub start_harvester : (id : ℕ) → FileInfo → Prospector → Prospector
unfolding act start_harvester_with_offset
start_harvester id info p =
    let offset = if p.from_beginning then 0 else info.size in
    start_harvester_with_offset id offset (act (discover id (p.infos id).file offset) p)

abbrev pub is_invalid : Status → Bool
is_invalid status_invalid = true
is_invalid _ = false

abbrev pub is_no : Orphaned → Bool
is_no orphaned_no = true
is_no _ = false
