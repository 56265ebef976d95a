-- ===== src/Prospector/Scan/Files.antt =====
-- Looking at a file (lc-lib/prospector) returns, and keeps the index as it should be.
use log_courier.Common.{
  ℕ, ◌≡◌, refl, ap, ◌∙◌, Bool, true, false, String, Option, none, some, arith, if-Both, string_eq,
}
use log_courier.Prospector.Info.{
  status_ok, FileInfo, Error, ProspectorInfo, FinishStatus, set_harvester_stopped, set_error,
  set_stat,
}
use log_courier.Prospector.State.{
  Prospector, mem, is_no, is_invalid, set_info, act, finish, poll, start_harvester_with_offset,
}
use log_courier.Prospector.Scan.Index.{is_ok, has_stat, Holds, nowhere, same-Holds}

-- The info that a file is about to have in the index.
pub record Fits (file : String) (id : ℕ) (p : Prospector) : Type 0 where
  pub name : (p.infos id).file ≡ file
  pub orphan : is_no (p.infos id).orphaned ≡ true
  pub member : mem id p.prospectors ≡ true
  pub valid : is_invalid (p.infos id).status ≡ false

abbrev pub Gives : Option Prospector → Type 0
Gives none = ⊥
Gives (some p) = Holds nowhere p

pub infos-set_info :
    (id : ℕ) (info : ProspectorInfo) (p : Prospector) → (set_info id info p).infos id ≡ info
unfolding set_info
infos-set_info id info p = ground arith

pub skip-Holds : (skip : String → Bool) (p : Prospector) → Holds nowhere p → Holds skip p
skip-Holds skip p h = record {
  name = λ f j l k. h.name f j l refl;
  orphan = λ f j l k. h.orphan f j l refl;
  member = λ f j l k. h.member f j l refl;
  bound = h.bound;
  stats = h.stats;
}

-- What the end of a harvester leaves of an info.
record Kept (info info' : ProspectorInfo) : Type 0 where
  name : info'.file ≡ info.file
  orphan : info'.orphaned ≡ info.orphaned
  valid : is_invalid info.status ≡ false → is_invalid info'.status ≡ false
  stats :
      (is_ok info.status ≡ true → has_stat info.identity ≡ true)
      → is_ok info'.status ≡ true
      → has_stat info'.identity ≡ true

set_error-Kept :
    (last : Option FileInfo) (e : Option Error) (info : ProspectorInfo)
    → Kept info (set_stat last (set_error e info))
unfolding set_stat set_error
set_error-Kept none none info = record {
  name = refl;
  orphan = refl;
  valid = λ i. i;
  stats = λ s. s;
}
set_error-Kept none (some e) info = record {
  name = refl;
  orphan = refl;
  valid = λ i. refl;
  stats = λ s k. ground arith;
}
set_error-Kept (some last) none info = record {
  name = refl;
  orphan = refl;
  valid = λ i. i;
  stats = λ s k. refl;
}
set_error-Kept (some last) (some e) info = record {
  name = refl;
  orphan = refl;
  valid = λ i. refl;
  stats = λ s k. refl;
}

stopped-Kept :
    (status : FinishStatus) (info : ProspectorInfo) → Kept info (set_harvester_stopped status info)
unfolding set_harvester_stopped
stopped-Kept status info =
    let k =
      set_error-Kept status.last_stat status.error
        (record info { running = false; finish_offset = status.last_event_offset }) in
    record { name = k.name; orphan = k.orphan; valid = k.valid; stats = k.stats }

-- An info that changes and keeps its place.
pub set_info-Fits :
    (file : String) (id : ℕ) (info : ProspectorInfo) (p : Prospector)
    → info.file ≡ file
    → is_no info.orphaned ≡ true
    → mem id p.prospectors ≡ true
    → is_invalid info.status ≡ false
    → Fits file id (set_info id info p)
unfolding set_info
set_info-Fits file id info p n o m i =
    let e = infos-set_info id info p in
    record {
      name = ap (λ x. x.file) e ∙ n;
      orphan = ap (λ x. is_no x.orphaned) e ∙ o;
      member = m;
      valid = ap (λ x. is_invalid x.status) e ∙ i;
    }

pub poll-Holds :
    (skip : String → Bool) (answer : Option FinishStatus) (file : String) (id : ℕ) (p : Prospector)
    → Holds skip p
    → Holds skip (poll answer id p) × (Fits file id p → Fits file id (poll answer id p))
unfolding poll act
poll-Holds skip none file id p h = (h, λ f. f)
poll-Holds skip (some status) file id p h =
    let k = stopped-Kept status (p.infos id) in
    let info = set_harvester_stopped status (p.infos id) in
    if-Both (λ p'. Holds skip p' × (Fits file id p → Fits file id p')) (p.infos id).running
      (act (finish id) (set_info id info p)) p
      (λ e. (
        same-Holds skip id info p k.name k.orphan (k.stats (h.stats id)) h,
        λ f.
            let g =
              set_info-Fits file id info p (k.name ∙ f.name) (ap is_no k.orphan ∙ f.orphan) f.member
                (k.valid f.valid) in
            record { name = g.name; orphan = g.orphan; member = g.member; valid = g.valid },
      ))
      (λ e. (h, λ f. f))

pub start-Holds :
    (skip : String → Bool) (file : String) (id offset : ℕ) (p : Prospector)
    → has_stat (p.infos id).identity ≡ true
    → Fits file id p
    → Holds skip p
    → Holds skip (start_harvester_with_offset id offset p)
      × Fits file id (start_harvester_with_offset id offset p)
unfolding start_harvester_with_offset act
start-Holds skip file id offset p s f h =
    let info = record (p.infos id) { running = true; status = status_ok } in
    let g = set_info-Fits file id info p f.name f.orphan f.member refl in
    (
      same-Holds skip id info p refl refl (λ k. s) h,
      record { name = g.name; orphan = g.orphan; member = g.member; valid = g.valid },
    )
