-- ===== src/Prospector/Scan/Turns.antt =====
-- The parts of a look at a file (lc-lib/prospector) start and end harvesters in turns.
use log_courier.Common.{
  ℕ, suc, ◌<◌, ◌≡◌, refl, ap, ◌∙◌, Bool, true, false, ◌&&◌, String, List, ◌∷◌, Option, none, some,
  arith, ltb, if-Both, if◌then◌else◌, string_eq,
}
use log_courier.Prospector.Info.{
  Status, orphaned_no, FileInfo, Error, ProspectorInfo, FinishStatus, set_harvester_stopped, update,
  seen, invalid, from_file_info,
}
use log_courier.Prospector.State.{
  Prospector, Action, discover, renamed, deleted, finish, is_no, set_info, alloc, act, store,
  unstore, set_index, unset_index, set_orphaned, poll, start_harvester_with_offset, start_harvester,
}
use log_courier.Prospector.Scan.{
  Visit, take_previous, set_invalid, conclude, decide, resume, rename, discovered, is_dead,
}
use log_courier.Prospector.Scan.Files.{infos-set_info}
use log_courier.Prospector.Scan.Harvesters.{
  IsTurned, Turns, same-Turns, alloc-Turns, start-Turns, poll-Turns,
}

-- The actions that are no harvester's.
pub turned :
    (infos : ℕ → ProspectorInfo) (allocated : ℕ) (actions : List Action) (id : ℕ) (file : String)
    (offset : ℕ)
    → IsTurned infos actions allocated
    → IsTurned infos (discover id file offset ∷ actions) allocated
      × IsTurned infos (renamed id file ∷ actions) allocated
      × IsTurned infos (deleted id ∷ actions) allocated
turned infos allocated actions id file offset h = (
  record { turns = h.turns; now = h.now; fresh = h.fresh },
  record { turns = h.turns; now = h.now; fresh = h.fresh },
  record { turns = h.turns; now = h.now; fresh = h.fresh },
)

pub set_invalid-Turns :
    (file : String) (e : Error) (p : Prospector) → Turns p → Turns (set_invalid file e p)
unfolding set_invalid seen invalid store set_index
set_invalid-Turns file e p h = alloc-Turns (seen p.iteration (invalid file e)) p refl h

conclude-Turns :
    (v : Visit) (info : FileInfo) (id : ℕ) (status : Status) (again : Bool) (p : Prospector)
    → id < p.allocated
    → (again ≡ true → (p.infos id).running ≡ false)
    → Turns p
    → Turns (conclude v info id (status, again) p)
unfolding conclude update set_index set_info
conclude-Turns v info id status again p b r h =
    let pi = update info p.iteration (record (p.infos id) { status = status }) in
    let p' = set_info id pi p in
    let h' = same-Turns id pi p refl h in
    if-Both Turns again (start_harvester_with_offset id (p.infos id).finish_offset p') p'
      (λ e.
        start-Turns id (p.infos id).finish_offset p' b
          (ap (λ x. x.running) (infos-set_info id pi p) ∙ r e) h')
      (λ e. h')

poll-allocated :
    (answer : Option FinishStatus) (id : ℕ) (p : Prospector)
    → (poll answer id p).allocated ≡ p.allocated
unfolding poll act set_info
poll-allocated none id p = refl
poll-allocated (some status) id p =
    if-Both (λ q. q.allocated ≡ p.allocated) (p.infos id).running
      (act (finish id) (set_info id (set_harvester_stopped status (p.infos id)) p)) p (λ e. refl)
      (λ e. refl)

-- The result of a call, where it returns.
abbrev pub TurnsIn : Option Prospector → Type 0
TurnsIn none = Unit
TurnsIn (some p) = Turns p

decided-Turns :
    (v : Visit) (info : FileInfo) (id : ℕ) (p : Prospector) (o : Option (Status × Bool))
    → id < p.allocated
    → (p.infos id).running ≡ false
    → Turns p
    → TurnsIn (elim o [ none ↦ none | some decision ↦ some (conclude v info id decision p) ])
decided-Turns v info id p none b r h = tt
decided-Turns v info id p (some (status, again)) b r h =
    conclude-Turns v info id status again p b (λ e. r) h

pub resume-Turns :
    (v : Visit) (info : FileInfo) (id : ℕ) (p : Prospector)
    → id < p.allocated
    → Turns p
    → TurnsIn (resume v info id p)
unfolding resume
resume-Turns v info id p b h =
    let p' = poll (v.finished id) id p in
    let h' = poll-Turns (v.finished id) id p h in
    let b' : id < p'.allocated = omega (arith, b, poll-allocated (v.finished id) id p) in
    let pi = p'.infos id in
    if-Both TurnsIn pi.running _ _
      (λ e. conclude-Turns v info id pi.status false p' b' (λ k. absurd (ground arith)) h')
      (λ e. decided-Turns v info id p' (decide v info pi pi.status) b' e h')

-- A rename moves an info with its harvester.
pub rename-Turns :
    (v : Visit) (id : ℕ) (p : Prospector)
    → Turns p
    → Turns (rename v id p) × ((rename v id p).allocated ≡ p.allocated)
unfolding rename take_previous act store unstore unset_index set_orphaned set_info
rename-Turns v id p h =
    let ki = p.infos id in
    let q = take_previous id p in
    let (t, a) : Turns q × (q.allocated ≡ p.allocated) =
      if-Both (λ r. Turns r × (r.allocated ≡ p.allocated)) (is_no ki.orphaned)
        (unset_index ki.file (unstore id p)) (set_orphaned id orphaned_no (unstore id p))
        (λ e. (h, refl))
        (λ e. (same-Turns id (record ki { orphaned = orphaned_no }) (unstore id p) refl h, refl)) in
    let moved = same-Turns id (record (q.infos id) { file = v.file }) q refl t in
    ((turned _ _ _ id v.file 0 moved).1, a)

pub launched-Turns :
    (v : Visit) (info : FileInfo) (p : Prospector)
    → Turns p
    → Turns (start_harvester p.allocated info (alloc (from_file_info v.file info) p))
unfolding start_harvester start_harvester_with_offset act alloc from_file_info set_info
launched-Turns v info p h =
    let id = p.allocated in
    let pi = from_file_info v.file info in
    let offset = if p.from_beginning then 0 else info.size in
    let q = act (discover id ((alloc pi p).infos id).file offset) (alloc pi p) in
    start-Turns id offset q (omega arith) (ap (λ x. x.running) (infos-set_info id pi p))
      (turned _ _ _ id ((alloc pi p).infos id).file offset (alloc-Turns pi p refl h)).0

pub discovered-Turns :
    (v : Visit) (info : FileInfo) (p : Prospector)
    → Turns p
    → Turns (discovered v info p) × ((discovered v info p).allocated ≡ suc p.allocated)
unfolding discovered act store alloc set_info start_harvester start_harvester_with_offset
    from_file_info
discovered-Turns v info p h =
    let id = p.allocated in
    let pi = record (from_file_info v.file info) { finish_offset = info.size } in
    if-Both (λ r. Turns (store id r) × (r.allocated ≡ suc p.allocated))
      (ltb info.mod_time p.last_scan && is_dead v info)
      (act (discover id v.file info.size) (alloc pi p))
      (start_harvester id info (alloc (from_file_info v.file info) p))
      (λ e. ((turned _ _ _ id v.file info.size (alloc-Turns pi p refl h)).0, refl))
      (λ e. (launched-Turns v info p h, refl))
