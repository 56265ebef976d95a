-- ===== src/Prospector/Scan/Renames.antt =====
-- A file that was renamed keeps its harvester (lc-lib/prospector).
use log_courier.Common.{
  ℕ, ◌≡◌, refl, sym, ap, ◌∙◌, true, false, List, [], ◌∷◌, none, some, arith, String, ◌==◌, ==_lem,
  inl, inr, Bool-cases, if-true, nat_eq, if-Both, if◌then◌else◌, lookup, string_eq, lookup-insert,
  lookup-delete, beq_refl, if-false, subst,
}
use log_courier.Prospector.Info.{orphaned_no, skip_error, other_error, FileInfo, update}
use log_courier.Prospector.State.{
  Prospector, renamed, is_no, set_info, act, store, unstore, set_index, unset_index, set_orphaned,
  poll, mem,
}
use log_courier.Prospector.Scan.{
  Visit, stats, stat_error, process_error, discovered, previous, take_previous, rename, resume,
  conclude, find_ids, is_candidate, duplicate, range, after_lookup, lookup_file_ids, process_new,
  process_found, process_file,
}
use log_courier.Prospector.Scan.Moves.{mem-range}
use log_courier.Prospector.Scan.Files.{infos-set_info}

-- What becomes of the old name, and what stays of the info.
record IsMoved (id : ℕ) (p p' : Prospector) : Type 0 where
  running : (p'.infos id).running ≡ (p.infos id).running
  actions : p'.actions ≡ p.actions
  old : is_no (p.infos id).orphaned ≡ true → lookup (p.infos id).file p'.index ≡ none

take_previous-IsMoved : (id : ℕ) (p : Prospector) → IsMoved id p (take_previous id p)
unfolding take_previous unstore unset_index set_orphaned set_info
take_previous-IsMoved id p =
    let ki = p.infos id in
    if-Both (IsMoved id p) (is_no ki.orphaned) (unset_index ki.file (unstore id p))
      (set_orphaned id orphaned_no (unstore id p))
      (λ e. record {
        running = refl;
        actions = refl;
        old = λ o. ground (arith, lookup-delete ki.file ki.file p.index, beq_refl ki.file);
      })
      (λ e. record {
        running =
            ap (λ i. i.running)
              (infos-set_info id (record ki { orphaned = orphaned_no }) (unstore id p));
        actions = refl;
        old = λ o. absurd (ground (arith, o, e));
      })

rename-running :
    (v : Visit) (id : ℕ) (p : Prospector)
    → ((rename v id p).infos id).running ≡ (p.infos id).running
unfolding rename act store
rename-running v id p =
    let q = take_previous id p in
    ap (λ i. i.running) (infos-set_info id (record (q.infos id) { file = v.file }) q)
    ∙ (take_previous-IsMoved id p).running

process_file-found :
    (v : Visit) (info : FileInfo) (p : Prospector)
    → v.result ≡ stats info
    → info.is_dir ≡ false
    → process_file v p ≡ process_found v info (lookup v.file p.index) p
unfolding process_file
process_file-found v info p r d =
    let known = lookup v.file p.index in
    subst
      (λ x.
        elim x [
          | stat_error message ↦ some (process_error v.file (other_error message) known p)
          | stats i ↦
              if i.is_dir
              then some (process_error v.file (skip_error "Directory") known p)
              else process_found v i known p
        ]
        ≡ process_found v info known p)
      (sym r) (if-false info.is_dir _ _ d)

process_file-resume :
    (v : Visit) (info : FileInfo) (id : ℕ) (p : Prospector)
    → v.result ≡ stats info
    → info.is_dir ≡ false
    → lookup v.file p.index ≡ none
    → lookup_file_ids v info p ≡ previous id
    → process_file v p ≡ resume v info id (rename v id p)
unfolding process_found process_new after_lookup
process_file-resume v info id p r d n l =
    process_file-found v info p r d
    ∙ ap (λ known. process_found v info known p) n
    ∙ ap (λ r. after_lookup v info none (discovered v info) r p) l

-- A harvester that runs on is left as it is.
resume-running :
    (v : Visit) (info : FileInfo) (id : ℕ) (q : Prospector)
    → (q.infos id).running ≡ true
    → v.finished id ≡ none
    → resume v info id q ≡ some (conclude v info id ((q.infos id).status, false) q)
unfolding resume poll
resume-running v info id q r f = rw f (rw r refl)

-- The only info in the collection that `lookupFileIds` may find, and not seen in this iteration yet.
pub record IsTheOne (v : Visit) (info : FileInfo) (id : ℕ) (p : Prospector) : Type 0 where
  pub stored : mem id p.prospectors ≡ true
  pub candidate : is_candidate v.file info (p.infos id) ≡ true
  pub unseen : ((p.infos id).last_seen == p.iteration) ≡ false
  pub only :
      (other : ℕ)
      → mem other p.prospectors ≡ true
      → is_candidate v.file info (p.infos other) ≡ true
      → other ≡ id

find_ids-previous :
    (file : String) (info : FileInfo) (id : ℕ) (p : Prospector) (ids : List ℕ)
    → mem id ids ≡ true
    → is_candidate file info (p.infos id) ≡ true
    → ((p.infos id).last_seen == p.iteration) ≡ false
    → ((other : ℕ)
        → mem other ids ≡ true
        → is_candidate file info (p.infos other) ≡ true
        → other ≡ id)
    → find_ids file info p ids ≡ previous id
unfolding find_ids mem
find_ids-previous file info id p [] m c u only = ground (arith, m)
find_ids-previous file info id p (x ∷ ids) m c u only =
    elim (Bool-cases (is_candidate file info (p.infos x))) [
      | inl found ↦
          let same : x ≡ id = only x (if-true (x == x) _ _ (beq_refl x)) found in
          if-true (is_candidate file info (p.infos x)) _ _ found
          ∙ subst
              (λ y.
                (if (p.infos y).last_seen == p.iteration then duplicate else previous y)
                ≡ previous id)
              (sym same) (if-false ((p.infos id).last_seen == p.iteration) _ _ u)
      | inr other ↦
          let later : mem id ids ≡ true = elim (Bool-cases (x == id)) [
            | inl same ↦
                let found =
                  subst (λ y. is_candidate file info (p.infos y) ≡ true) (sym (==_lem x id same))
                    c in
                ground (arith, found, other)
            | inr ne ↦ sym (if-false (x == id) true (mem id ids) ne) ∙ m
          ] in
          if-false (is_candidate file info (p.infos x)) _ _ other
          ∙ find_ids-previous file info id p ids later c u (λ y n.
            only y (if-Both (λ b. b ≡ true) (x == y) true (mem y ids) (λ e. refl) (λ e. n)))
    ]

IsTheOne-lookup_file_ids :
    (v : Visit) (info : FileInfo) (id : ℕ) (p : Prospector)
    → IsTheOne v info id p
    → lookup_file_ids v info p ≡ previous id
unfolding lookup_file_ids
IsTheOne-lookup_file_ids v info id p one =
    find_ids-previous v.file info id p (range v.first p.prospectors)
      (mem-range id v.first p.prospectors ∙ one.stored) one.candidate one.unseen
      (λ other m. one.only other (sym (mem-range other v.first p.prospectors) ∙ m))

-- Where a file that is found has a name that is not known, and of the valid infos in the collection,
-- but for one that has this name and is no orphan, exactly one has the system's identifiers of the
-- file, its harvester runs, and it was not yet seen in this iteration: then in whatever order the
-- infos are looked through, nothing is done to the harvester: the registrar is told the new name,
-- which has the info from then on, and the old name has no entry where the info was no orphan.
pub process_file-renamed :
    (v : Visit) (info : FileInfo) (id : ℕ) (p : Prospector)
    → v.result ≡ stats info
    → info.is_dir ≡ false
    → lookup v.file p.index ≡ none
    → IsTheOne v info id p
    → (p.infos id).running ≡ true
    → v.finished id ≡ none
    → (p' : Prospector) × (process_file v p ≡ some p')
      × (p'.actions ≡ renamed id v.file ∷ p.actions)
      × (lookup v.file p'.index ≡ some id)
      × ((p'.infos id).running ≡ true)
      × (string_eq.beq v.file (p.infos id).file ≡ false
          → is_no (p.infos id).orphaned ≡ true
          → lookup (p.infos id).file p'.index ≡ none)
unfolding conclude set_index rename act store set_info update
process_file-renamed v info id p r d n one running f =
    let q = rename v id p in
    let m = take_previous-IsMoved id p in
    let on = rename-running v id p ∙ running in
    let old = (p.infos id).file in
    let pi = update info q.iteration (record (q.infos id) { status = (q.infos id).status }) in
    (
      conclude v info id ((q.infos id).status, false) q,
      process_file-resume v info id p r d n (IsTheOne-lookup_file_ids v info id p one)
          ∙ resume-running v info id q on f,
      ap (λ actions. renamed id v.file ∷ actions) m.actions,
      ground (arith, lookup-insert v.file v.file id q.index, beq_refl v.file),
      ap (λ i. i.running) (infos-set_info id pi q) ∙ on,
      λ b o. ground (arith, lookup-insert v.file old id q.index, b, m.old o),
    )
