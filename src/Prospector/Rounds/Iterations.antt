-- ===== src/Prospector/Rounds/Iterations.antt =====
-- The iterations of the prospector (lc-lib/prospector) return, and keep the index as it should be.
use log_courier.Common.{
  ℕ, ◌≡◌, refl, sym, ap, ◌∙◌, true, String, List, [], ◌∷◌, Option, none, some, leb, if-Both, lookup,
  string_eq,
}
use log_courier.Prospector.Info.{
  Orphaned, orphaned_no, orphaned_maybe, orphaned_yes, FinishStatus, set_harvester_stopped,
}
use log_courier.Prospector.State.{
  Prospector, is_no, set_info, act, finish, unstore, unset_index, set_orphaned, poll,
}
use log_courier.Prospector.Scan.{Visit, range, process_file}
use log_courier.Prospector.Rounds.{
  Iteration, forget, clean_orphan, clean_info, clean, scan, run_once, run,
}
use log_courier.Prospector.Scan.Index.{
  Holds, nowhere, absent-Holds, unstore-Holds, unset_index-Holds,
}
use log_courier.Prospector.Scan.Files.{Gives, poll-Holds}
use log_courier.Prospector.Scan.Moves.{orphan-absent, indexed-absent}
use log_courier.Prospector.Scan.Visits.{process_file-Gives}

pub poll-index :
    (answer : Option FinishStatus) (id : ℕ) (p : Prospector) → (poll answer id p).index ≡ p.index
unfolding poll act set_info
poll-index none id p = refl
poll-index (some status) id p =
    if-Both (λ q. q.index ≡ p.index) (p.infos id).running
      (act (finish id) (set_info id (set_harvester_stopped status (p.infos id)) p)) p (λ e. refl)
      (λ e. refl)

abbrev IsAbsent : ℕ → Prospector → Type 0
IsAbsent id p = (f : String) → lookup f p.index ≡ some id → ⊥

clean_orphan-Holds :
    (answer : Option FinishStatus) (id : ℕ) (p : Prospector)
    → IsAbsent id p
    → Holds nowhere p
    → Holds nowhere (clean_orphan answer id p) × IsAbsent id (clean_orphan answer id p)
unfolding clean_orphan unstore
clean_orphan-Holds answer id p a h =
    let p' = poll answer id p in
    let (h', fits) = poll-Holds nowhere answer "" id p h in
    let a' : IsAbsent id p' = λ f l. a f (sym (ap (lookup f) (poll-index answer id p)) ∙ l) in
    if-Both (λ q. Holds nowhere q × IsAbsent id q) (p'.infos id).running p' (unstore id p')
      (λ e. (h', a')) (λ e. (unstore-Holds nowhere id p' (λ f l k. a' f l) h', a'))

forget-Holds :
    (id : ℕ) (p : Prospector) → IsAbsent id p → Holds nowhere p → Holds nowhere (forget id p)
unfolding forget act set_orphaned
forget-Holds id p a h =
    absent-Holds nowhere id (record (p.infos id) { orphaned = orphaned_yes }) p (λ f l k. a f l)
      (h.stats id) h

clean_info-Holds :
    (answer : Option FinishStatus) (id : ℕ) (orphaned : Orphaned) (p : Prospector)
    → (p.infos id).orphaned ≡ orphaned
    → Holds nowhere p
    → Holds nowhere (clean_info answer id orphaned p)
unfolding clean_info unset_index
clean_info-Holds answer id orphaned_no p o h =
    let info = p.infos id in
    if-Both (Holds nowhere) (leb p.iteration info.last_seen) p (forget id (unset_index info.file p))
      (λ e. h)
      (λ e.
        forget-Holds id (unset_index info.file p) (λ f l. indexed-absent nowhere id p f h l refl)
          (unset_index-Holds nowhere info.file p h))
clean_info-Holds answer id orphaned_maybe p o h =
    let (h', a) =
      clean_orphan-Holds answer id p (λ f l. orphan-absent nowhere id p f h (ap is_no o) l refl)
        h in
    forget-Holds id (clean_orphan answer id p) a h'
clean_info-Holds answer id orphaned_yes p o h =
    (clean_orphan-Holds answer id p (λ f l. orphan-absent nowhere id p f h (ap is_no o) l refl) h).0

pub clean-Holds :
    (finished : ℕ → Option FinishStatus) (ids : List ℕ) (p : Prospector)
    → Holds nowhere p
    → Holds nowhere (clean finished ids p)
unfolding clean
clean-Holds finished [] p h = h
clean-Holds finished (id ∷ ids) p h =
    clean-Holds finished ids (clean_info (finished id) id (p.infos id).orphaned p)
      (clean_info-Holds (finished id) id (p.infos id).orphaned p refl h)

-- What a call gives, by what it hands to the next.
after-Gives :
    (o : Option Prospector) (next : Prospector → Option Prospector)
    → Gives o
    → ((p : Prospector) → Holds nowhere p → Gives (next p))
    → Gives (elim o [ none ↦ none | some p ↦ next p ])
after-Gives none next g n = g
after-Gives (some p) next g n = n p g

pub scan-Gives : (visits : List Visit) (p : Prospector) → Holds nowhere p → Gives (scan visits p)
unfolding scan
scan-Gives [] p h = h
scan-Gives (v ∷ visits) p h =
    after-Gives (process_file v p) (scan visits) (process_file-Gives v p h) (scan-Gives visits)

pub run_once-Gives : (i : Iteration) (p : Prospector) → Holds nowhere p → Gives (run_once i p)
unfolding run_once
run_once-Gives i p h =
    after-Gives _ _ (scan-Gives i.visits (record p { iteration = _ }) h) (λ p' h'.
      clean-Holds i.finished (range i.first p'.prospectors) (record p' { from_beginning = true })
        h')

pub run-Gives :
    (iterations : List Iteration) (p : Prospector) → Holds nowhere p → Gives (run iterations p)
unfolding run
run-Gives [] p h = h
run-Gives (i ∷ iterations) p h =
    after-Gives (run_once i p) (run iterations) (run_once-Gives i p h) (run-Gives iterations)
