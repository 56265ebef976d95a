-- ===== src/Prospector/Scan/Steps.antt =====
-- The steps of looking at a file (lc-lib/prospector): each keeps the index as it should be.
use log_courier.Common.{
  ℕ, ◌≡◌, refl, ap, inl, inr, Bool, true, false, not, ◌&&◌, Bool-cases, String, some, arith, ◌==◌,
  if-Both, string_eq,
}
use log_courier.Prospector.Info.{
  Status, status_ok, status_resume, status_failed, status_invalid, FileInfo, Identity, unknown,
  saved, found, Error, ProspectorInfo, update, seen, invalid,
}
use log_courier.Prospector.State.{
  Prospector, mem, is_no, is_invalid, set_info, alloc, store, set_index, poll,
  start_harvester_with_offset,
}
use log_courier.Prospector.Scan.{Visit, set_invalid, conclude, decide, resume, is_dead}
use log_courier.Prospector.Scan.Index.{
  is_ok, has_stat, Holds, nowhere, but, same-Holds, alloc-Holds, store-Holds, set_index-Holds,
}
use log_courier.Prospector.Scan.Files.{
  Fits, Gives, infos-set_info, set_info-Fits, poll-Holds, start-Holds,
}

pub mem-store : (id : ℕ) (p : Prospector) → mem id (store id p).prospectors ≡ true
unfolding store mem
mem-store id p = ground arith

-- An info that is stored has its place.
pub store-Fits :
    (file : String) (id : ℕ) (p : Prospector)
    → (p.infos id).file ≡ file
    → is_no (p.infos id).orphaned ≡ true
    → is_invalid (p.infos id).status ≡ false
    → Fits file id (store id p)
unfolding store
store-Fits file id p n o i = record { name = n; orphan = o; member = mem-store id p; valid = i }

pub set_invalid-Holds :
    (file : String) (e : Error) (p : Prospector)
    → Holds (but file) p
    → Holds nowhere (set_invalid file e p)
unfolding set_invalid
set_invalid-Holds file e p h =
    let info = seen p.iteration (invalid file e) in
    let h' = alloc-Holds (but file) info p (λ k. k) h in
    let same = infos-set_info p.allocated info p in
    set_index-Holds file p.allocated (store p.allocated (alloc info p)) (ap (λ x. x.file) same)
      (ap (λ x. is_no x.orphaned) same) (mem-store p.allocated (alloc info p))
      (store-Holds (but file) p.allocated (alloc info p) (omega arith) h')

conclude-Holds :
    (v : Visit) (info : FileInfo) (id : ℕ) (status : Status) (again : Bool) (p : Prospector)
    → is_invalid status ≡ false
    → Fits v.file id p
    → Holds (but v.file) p
    → Holds nowhere (conclude v info id (status, again) p)
unfolding conclude update
conclude-Holds v info id status again p i f h =
    let pi = update info p.iteration (record (p.infos id) { status = status }) in
    let p' = set_info id pi p in
    let h' = same-Holds (but v.file) id pi p refl refl (λ k. refl) h in
    let f' = set_info-Fits v.file id pi p f.name f.orphan f.member i in
    let s = ap (λ x. has_stat x.identity) (infos-set_info id pi p) in
    if-Both (λ q. Holds nowhere (set_index v.file id q)) again
      (start_harvester_with_offset id (p.infos id).finish_offset p') p'
      (λ e.
        let offset = (p.infos id).finish_offset in
        let (h'', f'') = start-Holds (but v.file) v.file id offset p' s f' h' in
        set_index-Holds v.file id (start_harvester_with_offset id offset p') f''.name f''.orphan
          f''.member h'')
      (λ e. set_index-Holds v.file id p' f'.name f'.orphan f'.member h')

-- The panic on an identity without file information does not come.
decide-ok :
    (v : Visit) (info : FileInfo) (pi : ProspectorInfo) (identity : Identity)
    → pi.identity ≡ identity
    → has_stat identity ≡ true
    → (d : Status × Bool) × (decide v info pi status_ok ≡ some d) × (is_invalid d.0 ≡ false)
unfolding decide
decide-ok v info pi unknown e s = absurd (ground arith)
decide-ok v info pi (saved ids) e s = absurd (ground arith)
decide-ok v info pi (found old) e s =
    ((status_ok, not (old.mod_time == info.mod_time)), rw e refl, refl)

-- A decision comes where the identity of an info that is well has file information.
decide-some :
    (v : Visit) (info : FileInfo) (pi : ProspectorInfo) (status : Status)
    → is_invalid status ≡ false
    → (is_ok status ≡ true → has_stat pi.identity ≡ true)
    → (d : Status × Bool) × (decide v info pi status ≡ some d) × (is_invalid d.0 ≡ false)
unfolding decide
decide-some v info pi status_ok i s = decide-ok v info pi pi.identity refl (s refl)
decide-some v info pi status_resume i s =
    elim (Bool-cases (pi.finish_offset == info.size && is_dead v info)) [
      | inl e ↦ ((status_ok, false), rw e refl, refl)
      | inr e ↦ ((status_resume, true), rw e refl, refl)
    ]
decide-some v info pi status_failed i s = ((status_failed, true), refl, refl)
decide-some v info pi status_invalid i s = absurd (ground arith)

pub resume-Gives :
    (v : Visit) (info : FileInfo) (id : ℕ) (p : Prospector)
    → Fits v.file id p
    → Holds (but v.file) p
    → Gives (resume v info id p)
unfolding resume
resume-Gives v info id p f h =
    let p' = poll (v.finished id) id p in
    let (h', fits) = poll-Holds (but v.file) (v.finished id) v.file id p h in
    let f' = fits f in
    let pi = p'.infos id in
    let (d, e, i) = decide-some v info pi pi.status f'.valid (h'.stats id) in
    if-Both Gives pi.running _ _ (λ r. conclude-Holds v info id pi.status false p' f'.valid f' h')
      (λ r. rw e (conclude-Holds v info id d.0 d.1 p' i f' h'))
