-- ===== src/Prospector/Rounds/Launches.antt =====
-- No info ever has two harvesters at once, in any iterations of the prospector (lc-lib/prospector).
use log_courier.Common.{
  ℕ, suc, ◌<◌, ◌≡◌, refl, Bool, true, false, String, List, [], ◌∷◌, Option, none, some, arith, leb,
  if-Both, lookup, string_eq, Assoc,
}
use log_courier.Registrar.{FileState}
use log_courier.Prospector.Info.{
  orphaned_no, orphaned_maybe, orphaned_yes, Orphaned, FileInfo, Error, skip_error, other_error,
  FinishStatus, seen, from_file_info, from_file_state, same_as,
}
use log_courier.Prospector.State.{
  Prospector, is_invalid, set_info, alloc, act, store, unstore, set_index, unset_index,
  set_orphaned, poll, start_harvester_with_offset, start_harvester,
}
use log_courier.Prospector.Scan.{
  Visit, StatResult, stats, stat_error, Lookup, missing, duplicate, previous, set_invalid, resume,
  rename, discovered, rotated, after_lookup, flag_duplicate_error, duplicate_error, lookup_file_ids,
  process_new, process_known, process_error, process_found, process_file, same_error, range,
}
use log_courier.Prospector.Rounds.{
  Iteration, forget, clean_orphan, clean_info, clean, scan, run_once, run, load, store_all, empty,
  new_prospector,
}
use log_courier.Prospector.Scan.Index.{Holds, nowhere, but}
use log_courier.Prospector.Scan.Files.{Gives}
use log_courier.Prospector.Scan.Visits.{found-valid, orphaned-Holds, process_file-Gives}
use log_courier.Prospector.Rounds.Iterations.{scan-Gives, run_once-Gives, run-Gives}
use log_courier.Prospector.Rounds.Loading.{new_prospector-Holds}
use log_courier.Prospector.Scan.Turns.{
  turned, set_invalid-Turns, TurnsIn, resume-Turns, rename-Turns, launched-Turns, discovered-Turns,
}
use log_courier.Prospector.Scan.Harvesters.{
  IsAlternating, Turns, same-Turns, alloc-Turns, poll-Turns,
}

after_lookup-Turns :
    (v : Visit) (info : FileInfo) (stub : Option ℕ) (otherwise : Prospector → Prospector)
    (r : Lookup) (p : Prospector)
    → Turns p
    → Turns (otherwise p) × ((otherwise p).allocated ≡ suc p.allocated)
    → Turns (flag_duplicate_error v.file stub p)
    → ((id : ℕ) → r ≡ previous id → (id < p.allocated) × (is_invalid (p.infos id).status ≡ false))
    → TurnsIn (after_lookup v info stub otherwise r p)
unfolding after_lookup
after_lookup-Turns v info stub otherwise missing p h (o, a) d s =
    resume-Turns v info p.allocated (otherwise p) (omega (arith, a)) o
after_lookup-Turns v info stub otherwise duplicate p h o d s = d
after_lookup-Turns v info stub otherwise (previous id) p h o d s =
    let (b, i) = s id refl in
    let (h', a) = rename-Turns v id p h in
    resume-Turns v info id (rename v id p) (omega (arith, a, b)) h'

flag_duplicate_error-Turns :
    (file : String) (stub : Option ℕ) (p : Prospector)
    → Turns p
    → Turns (flag_duplicate_error file stub p)
unfolding flag_duplicate_error
flag_duplicate_error-Turns file none p h = set_invalid-Turns file duplicate_error p h
flag_duplicate_error-Turns file (some id) p h =
    if-Both Turns _ p (set_invalid file duplicate_error p) (λ e. h)
      (λ e. set_invalid-Turns file duplicate_error p h)

process_new-Turns :
    (v : Visit) (info : FileInfo) (stub : Option ℕ) (p : Prospector)
    → Holds nowhere p
    → Turns p
    → TurnsIn (process_new v info stub p)
unfolding process_new
process_new-Turns v info stub p i h =
    after_lookup-Turns v info stub (discovered v info) (lookup_file_ids v info p) p h
      (discovered-Turns v info p h) (flag_duplicate_error-Turns v.file stub p h)
      (found-valid nowhere v info p i)

rotated-Turns :
    (v : Visit) (info : FileInfo) (p : Prospector)
    → Turns p
    → Turns (rotated v info p) × ((rotated v info p).allocated ≡ suc p.allocated)
unfolding rotated store start_harvester start_harvester_with_offset act alloc set_info
    from_file_info
rotated-Turns v info p h = (launched-Turns v info p h, refl)

process_known-Turns :
    (v : Visit) (info : FileInfo) (id : ℕ) (p : Prospector)
    → lookup v.file p.index ≡ some id
    → Holds nowhere p
    → Turns p
    → TurnsIn (process_known v info id p)
unfolding process_known set_orphaned
process_known-Turns v info id p l i h =
    let p' = set_orphaned id orphaned_maybe p in
    let h' = same-Turns id (record (p.infos id) { orphaned = orphaned_maybe }) p refl h in
    if-Both TurnsIn (same_as (p.infos id).identity info) (resume v info id p)
      (after_lookup v info none (rotated v info) (lookup_file_ids v info p') p')
      (λ e. resume-Turns v info id p (i.bound id (i.member v.file id l refl)) h)
      (λ e.
        after_lookup-Turns v info none (rotated v info) (lookup_file_ids v info p') p' h'
          (rotated-Turns v info p' h') (set_invalid-Turns v.file duplicate_error p' h')
          (found-valid (but v.file) v info p' (orphaned-Holds v.file id p l i)))

process_error-Turns :
    (file : String) (e : Error) (known : Option ℕ) (p : Prospector)
    → Turns p
    → Turns (process_error file e known p)
unfolding process_error seen set_orphaned
process_error-Turns file e none p h = set_invalid-Turns file e p h
process_error-Turns file e (some id) p h =
    let info = p.infos id in
    if-Both Turns (is_invalid info.status) _ _
      (λ i.
        if-Both Turns (same_error info.err e) _ _
          (λ d. same-Turns id (seen p.iteration info) p refl h) (λ d. set_invalid-Turns file e p h))
      (λ i.
        set_invalid-Turns file e (set_orphaned id orphaned_maybe p)
          (same-Turns id (record info { orphaned = orphaned_maybe }) p refl h))

process_found-Turns :
    (v : Visit) (info : FileInfo) (known : Option ℕ) (p : Prospector)
    → lookup v.file p.index ≡ known
    → Holds nowhere p
    → Turns p
    → TurnsIn (process_found v info known p)
unfolding process_found
process_found-Turns v info none p l i h = process_new-Turns v info none p i h
process_found-Turns v info (some id) p l i h =
    if-Both TurnsIn (is_invalid (p.infos id).status) _ _
      (λ e. process_new-Turns v info (some id) p i h) (λ e. process_known-Turns v info id p l i h)

answered :
    (r : StatResult) (v : Visit) (p : Prospector)
    → v.result ≡ r
    → Holds nowhere p
    → Turns p
    → TurnsIn (process_file v p)
unfolding process_file
answered (stat_error message) v p e i h =
    rw e (process_error-Turns v.file (other_error message) (lookup v.file p.index) p h)
answered (stats info) v p e i h = rw e (
    if-Both TurnsIn info.is_dir _ _
      (λ d. process_error-Turns v.file (skip_error "Directory") (lookup v.file p.index) p h)
      (λ d. process_found-Turns v info (lookup v.file p.index) p refl i h))

clean_orphan-Turns :
    (answer : Option FinishStatus) (id : ℕ) (p : Prospector)
    → Turns p
    → Turns (clean_orphan answer id p)
unfolding clean_orphan unstore
clean_orphan-Turns answer id p h =
    let p' = poll answer id p in
    let h' = poll-Turns answer id p h in
    if-Both Turns (p'.infos id).running p' (unstore id p') (λ e. h') (λ e. h')

forget-Turns : (id : ℕ) (p : Prospector) → Turns p → Turns (forget id p)
unfolding forget act set_orphaned set_info
forget-Turns id p h =
    (turned _ _ _ id "" 0
      (same-Turns id (record (p.infos id) { orphaned = orphaned_yes }) p refl h)).2

clean_info-Turns :
    (answer : Option FinishStatus) (id : ℕ) (orphaned : Orphaned) (p : Prospector)
    → Turns p
    → Turns (clean_info answer id orphaned p)
unfolding clean_info unset_index
clean_info-Turns answer id orphaned_no p h =
    let file = (p.infos id).file in
    if-Both Turns (leb p.iteration (p.infos id).last_seen) p (forget id (unset_index file p))
      (λ e. h) (λ e. forget-Turns id (unset_index file p) h)
clean_info-Turns answer id orphaned_maybe p h =
    forget-Turns id (clean_orphan answer id p) (clean_orphan-Turns answer id p h)
clean_info-Turns answer id orphaned_yes p h = clean_orphan-Turns answer id p h

clean-Turns :
    (finished : ℕ → Option FinishStatus) (ids : List ℕ) (p : Prospector)
    → Turns p
    → Turns (clean finished ids p)
unfolding clean
clean-Turns finished [] p h = h
clean-Turns finished (id ∷ ids) p h =
    clean-Turns finished ids (clean_info (finished id) id (p.infos id).orphaned p)
      (clean_info-Turns (finished id) id (p.infos id).orphaned p h)

after-TurnsIn :
    (o : Option Prospector) (next : Prospector → Option Prospector)
    → Gives o
    → TurnsIn o
    → ((p : Prospector) → Holds nowhere p → Turns p → TurnsIn (next p))
    → TurnsIn (elim o [ none ↦ none | some p ↦ next p ])
after-TurnsIn none next g t n = tt
after-TurnsIn (some p) next g t n = n p g t

scan-Turns :
    (visits : List Visit) (p : Prospector) → Holds nowhere p → Turns p → TurnsIn (scan visits p)
unfolding scan
scan-Turns [] p i h = h
scan-Turns (v ∷ visits) p i h =
    after-TurnsIn (process_file v p) (scan visits) (process_file-Gives v p i)
      (answered v.result v p refl i h) (scan-Turns visits)

run_once-Turns :
    (i : Iteration) (p : Prospector) → Holds nowhere p → Turns p → TurnsIn (run_once i p)
unfolding run_once
run_once-Turns i p g h =
    after-TurnsIn _ _ (scan-Gives i.visits (record p { iteration = _ }) g)
      (scan-Turns i.visits (record p { iteration = _ }) g h)
      (λ p' g' h'.
        clean-Turns i.finished (range i.first p'.prospectors) (record p' { from_beginning = true })
          h')

run-Turns :
    (iterations : List Iteration) (p : Prospector)
    → Holds nowhere p
    → Turns p
    → TurnsIn (run iterations p)
unfolding run
run-Turns [] p g h = h
run-Turns (i ∷ iterations) p g h =
    after-TurnsIn (run_once i p) (run iterations) (run_once-Gives i p g) (run_once-Turns i p g h)
      (run-Turns iterations)

empty-Turns : (from_beginning : Bool) → Turns (empty from_beginning)
unfolding empty from_file_info
empty-Turns from_beginning = record { turns = tt; now = λ id. refl; fresh = λ id b. refl }

load-Turns : (states : List (String × FileState)) (p : Prospector) → Turns p → Turns (load states p)
unfolding load from_file_state set_index
load-Turns [] p h = h
load-Turns ((file, state) ∷ states) p h =
    load-Turns states (set_index file p.allocated (alloc (from_file_state file state) p))
      (alloc-Turns (from_file_state file state) p refl h)

store_all-Turns : (index : Assoc String ℕ) (p : Prospector) → Turns p → Turns (store_all index p)
unfolding store_all store
store_all-Turns [] p h = h
store_all-Turns ((file, id) ∷ index) p h = store_all-Turns index (store id p) h

new_prospector-Turns :
    (from_beginning : Bool) (states : Option (List (String × FileState)))
    → Turns (new_prospector from_beginning states)
unfolding new_prospector
new_prospector-Turns from_beginning none = empty-Turns from_beginning
new_prospector-Turns from_beginning (some states) =
    let p = load states (empty true) in
    store_all-Turns p.index p (load-Turns states (empty true) (empty-Turns true))

returned :
    (o : Option Prospector)
    → Gives o
    → TurnsIn o
    → (p : Prospector) × (o ≡ some p) × IsAlternating p.actions
returned none g t = absurd g
returned (some p) g t = (p, refl, t.turns)

-- However many iterations the prospector makes, whatever the system calls and the harvesters'
-- channels answer, it starts a harvester for an info only when the info has none, and takes the end
-- of one only when the info has one.
pub run-new_prospector-IsAlternating :
    (from_beginning : Bool) (states : Option (List (String × FileState)))
    (iterations : List Iteration)
    → (p : Prospector) × (run iterations (new_prospector from_beginning states) ≡ some p)
      × IsAlternating p.actions
run-new_prospector-IsAlternating from_beginning states iterations =
    let p = new_prospector from_beginning states in
    let h = new_prospector-Holds from_beginning states in
    returned (run iterations p) (run-Gives iterations p h)
      (run-Turns iterations p h (new_prospector-Turns from_beginning states))
