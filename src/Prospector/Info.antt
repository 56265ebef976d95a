-- ===== src/Prospector/Info.antt =====
-- lc-lib/prospector/info.go and errors.go: what the prospector knows of a file, and the identities
-- of lc-lib/registrar/filestate.go by which it knows a file again.
use log_courier.Common.{ℕ, Bool, false, ◌&&◌, String, Option, none, some, ◌==◌}
use log_courier.Registrar.{FileStateOs, FileState}

pub data Status : Type 0 where
  status_ok status_resume status_failed status_invalid : Status

pub data Orphaned : Type 0 where
  orphaned_no orphaned_maybe orphaned_yes : Orphaned

-- What the prospector uses of `os.FileInfo`. A time is a number of nanoseconds.
pub record FileInfo : Type 0 where
  pub ids : FileStateOs
  pub size : ℕ
  pub mod_time : ℕ
  pub is_dir : Bool

-- `FileIdentity`: nil in an error stub, a saved `FileState`, or a `FileInfo`.
pub data Identity : Type 0 where
  unknown : Identity
  saved : FileStateOs → Identity
  found : FileInfo → Identity

pub data Error : Type 0 where
  skip_error other_error : (message : String) → Error

-- `running` is that a harvester was started whose end was not yet received.
pub record ProspectorInfo : Type 0 where
  pub file : String
  pub identity : Identity
  pub last_seen : ℕ
  pub status : Status
  pub running : Bool
  pub orphaned : Orphaned
  pub finish_offset : ℕ
  pub err : Option Error

-- What a harvester reports at its end.
pub record FinishStatus : Type 0 where
  pub last_event_offset : ℕ
  pub error : Option Error
  pub last_stat : Option FileInfo

unfoldable pub same_ids : FileStateOs → FileStateOs → Bool
same_ids a b = a.inode == b.inode && a.device == b.device

-- `SameAs`. It is not called on nil, since stubs are left aside before.
unfoldable pub same_as : Identity → FileInfo → Bool
unfolding same_ids
same_as unknown info = false
same_as (saved ids) info = same_ids ids info.ids
same_as (found old) info = same_ids old.ids info.ids

-- `Stat`; none is nil.
abbrev pub stat : Identity → Option FileInfo
stat unknown = none
stat (saved ids) = none
stat (found info) = some info

unfoldable pub from_file_state : String → FileState → ProspectorInfo
from_file_state file state = record {
  file = file;
  identity = saved state.ids;
  last_seen = 0;
  status = status_resume;
  running = false;
  orphaned = orphaned_no;
  finish_offset = state.offset;
  err = none;
}

unfoldable pub from_file_info : String → FileInfo → ProspectorInfo
from_file_info file info = record {
  file = file;
  identity = found info;
  last_seen = 0;
  status = status_ok;
  running = false;
  orphaned = orphaned_no;
  finish_offset = 0;
  err = none;
}

unfoldable pub invalid : String → Error → ProspectorInfo
invalid file error = record {
  file = file;
  identity = unknown;
  last_seen = 0;
  status = status_invalid;
  running = false;
  orphaned = orphaned_no;
  finish_offset = 0;
  err = some error;
}

unfoldable pub set_error : Option Error → ProspectorInfo → ProspectorInfo
set_error none info = info
set_error (some error) info = record info { status = status_failed; err = some error }

unfoldable pub set_stat : Option FileInfo → ProspectorInfo → ProspectorInfo
set_stat none info = info
set_stat (some last) info = record info { identity = found last }

unfoldable pub set_harvester_stopped : FinishStatus → ProspectorInfo → ProspectorInfo
unfolding set_error set_stat
set_harvester_stopped status info = set_stat status.last_stat (
    set_error status.error
      (record info { running = false; finish_offset = status.last_event_offset }))

-- `update` with file information, which an identity of either kind takes on, and without.
unfoldable pub update : FileInfo → (iteration : ℕ) → ProspectorInfo → ProspectorInfo
update info iteration pi = record pi { identity = found info; last_seen = iteration }

unfoldable pub seen : (iteration : ℕ) → ProspectorInfo → ProspectorInfo
seen iteration pi = record pi { last_seen = iteration }
