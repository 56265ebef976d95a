-- ===== src/Prospector/Scan/Visits.antt =====
-- A look at a file (lc-lib/prospector, processFile) returns, and keeps the index as it should be.
use log_courier.Common.{
  ℕ, ◌<◌, ◌≡◌, refl, sym, ap, ◌∙◌, Bool, false, String, Option, none, some, arith, if-Both,
  beq_refl, lookup, string_eq,
}
use log_courier.Prospector.Info.{
  orphaned_maybe, FileInfo, Error, skip_error, other_error, seen, same_as,
}
use log_courier.Prospector.State.{Prospector, is_invalid, set_orphaned}
use log_courier.Prospector.Scan.{
  Visit, Lookup, missing, duplicate, previous, StatResult, stats, stat_error, range, set_invalid,
  resume, rename, discovered, rotated, after_lookup, flag_duplicate_error, duplicate_error,
  lookup_file_ids, process_new, process_known, process_error, process_found, process_file,
  same_error,
}
use log_courier.Prospector.Scan.Index.{Holds, nowhere, but, set_info-Holds, same-Holds}
use log_courier.Prospector.Scan.Files.{Fits, Gives, skip-Holds}
use log_courier.Prospector.Scan.Steps.{set_invalid-Holds, resume-Gives}
use log_courier.Prospector.Scan.Moves.{
  find_ids-previous, mem-range, rename-Fits, rotated-Fits, discovered-Fits,
}

after_lookup-Gives :
    (v : Visit) (info : FileInfo) (stub : Option ℕ) (otherwise : Prospector → Prospector)
    (r : Lookup) (p : Prospector)
    → Holds (but v.file) p
    → Holds (but v.file) (otherwise p) × Fits v.file p.allocated (otherwise p)
    → Holds nowhere (flag_duplicate_error v.file stub p)
    → ((id : ℕ) → r ≡ previous id → (id < p.allocated) × (is_invalid (p.infos id).status ≡ false))
    → Gives (after_lookup v info stub otherwise r p)
unfolding after_lookup
after_lookup-Gives v info stub otherwise missing p h (h', f) d s =
    resume-Gives v info p.allocated (otherwise p) f h'
after_lookup-Gives v info stub otherwise duplicate p h o d s = d
after_lookup-Gives v info stub otherwise (previous id) p h o d s =
    let (b, i) = s id refl in
    let (h', f) = rename-Fits (but v.file) v id p b i h in
    resume-Gives v info id (rename v id p) f h'

pub found-valid :
    (skip : String → Bool) (v : Visit) (info : FileInfo) (p : Prospector)
    → Holds skip p
    → (id : ℕ) → lookup_file_ids v info p ≡ previous id
    → (id < p.allocated) × (is_invalid (p.infos id).status ≡ false)
unfolding lookup_file_ids
found-valid skip v info p h id e =
    let (m, i) = find_ids-previous v.file info p (range v.first p.prospectors) id e in
    (h.bound id (sym (mem-range id v.first p.prospectors) ∙ m), i)

flag_duplicate_error-Holds :
    (file : String) (stub : Option ℕ) (p : Prospector)
    → Holds nowhere p
    → Holds nowhere (flag_duplicate_error file stub p)
unfolding flag_duplicate_error
flag_duplicate_error-Holds file none p h =
    set_invalid-Holds file duplicate_error p (skip-Holds (but file) p h)
flag_duplicate_error-Holds file (some id) p h =
    if-Both (Holds nowhere) _ p (set_invalid file duplicate_error p) (λ e. h)
      (λ e. set_invalid-Holds file duplicate_error p (skip-Holds (but file) p h))

process_new-Gives :
    (v : Visit) (info : FileInfo) (stub : Option ℕ) (p : Prospector)
    → Holds nowhere p
    → Gives (process_new v info stub p)
unfolding process_new
process_new-Gives v info stub p h =
    let h' = skip-Holds (but v.file) p h in
    after_lookup-Gives v info stub (discovered v info) (lookup_file_ids v info p) p h'
      (discovered-Fits (but v.file) v info p h') (flag_duplicate_error-Holds v.file stub p h)
      (found-valid nowhere v info p h)

-- The info of a name may become an orphan when the name's entry is about to change.
pub orphaned-Holds :
    (file : String) (id : ℕ) (p : Prospector)
    → lookup file p.index ≡ some id
    → Holds nowhere p
    → Holds (but file) (set_orphaned id orphaned_maybe p)
unfolding set_orphaned
orphaned-Holds file id p l h =
    let info = record (p.infos id) { orphaned = orphaned_maybe } in
    set_info-Holds (but file) id info p (λ f k n. h.name f id k refl)
      (λ f k n. absurd (
        ground (
          arith,
          n,
          ap (string_eq.beq file) (sym (h.name f id k refl) ∙ h.name file id l refl)
              ∙ beq_refl file,
        )))
      (h.stats id) (skip-Holds (but file) p h)

process_known-Gives :
    (v : Visit) (info : FileInfo) (id : ℕ) (p : Prospector)
    → lookup v.file p.index ≡ some id
    → is_invalid (p.infos id).status ≡ false
    → Holds nowhere p
    → Gives (process_known v info id p)
unfolding process_known
process_known-Gives v info id p l i h =
    let p' = set_orphaned id orphaned_maybe p in
    let h' = orphaned-Holds v.file id p l h in
    if-Both Gives (same_as (p.infos id).identity info) (resume v info id p)
      (after_lookup v info none (rotated v info) (lookup_file_ids v info p') p')
      (λ e.
        resume-Gives v info id p
          (record {
            name = h.name v.file id l refl;
            orphan = h.orphan v.file id l refl;
            member = h.member v.file id l refl;
            valid = i;
          })
          (skip-Holds (but v.file) p h))
      (λ e.
        after_lookup-Gives v info none (rotated v info) (lookup_file_ids v info p') p' h'
          (rotated-Fits (but v.file) v info p' h') (set_invalid-Holds v.file duplicate_error p' h')
          (found-valid (but v.file) v info p' h'))

process_error-Holds :
    (file : String) (e : Error) (known : Option ℕ) (p : Prospector)
    → lookup file p.index ≡ known
    → Holds nowhere p
    → Holds nowhere (process_error file e known p)
unfolding process_error seen
process_error-Holds file e none p l h = set_invalid-Holds file e p (skip-Holds (but file) p h)
process_error-Holds file e (some id) p l h =
    let info = p.infos id in
    if-Both (Holds nowhere) (is_invalid info.status) _ _
      (λ i.
        if-Both (Holds nowhere) (same_error info.err e) _ _
          (λ d. same-Holds nowhere id (seen p.iteration info) p refl refl (h.stats id) h)
          (λ d. set_invalid-Holds file e p (skip-Holds (but file) p h)))
      (λ i.
        set_invalid-Holds file e (set_orphaned id orphaned_maybe p) (orphaned-Holds file id p l h))

process_found-Gives :
    (v : Visit) (info : FileInfo) (known : Option ℕ) (p : Prospector)
    → lookup v.file p.index ≡ known
    → Holds nowhere p
    → Gives (process_found v info known p)
unfolding process_found
process_found-Gives v info none p l h = process_new-Gives v info none p h
process_found-Gives v info (some id) p l h =
    if-Both Gives (is_invalid (p.infos id).status) _ _ (λ i. process_new-Gives v info (some id) p h)
      (λ i. process_known-Gives v info id p l i h)

answered :
    (r : StatResult) (v : Visit) (p : Prospector)
    → v.result ≡ r
    → Holds nowhere p
    → Gives (process_file v p)
unfolding process_file
answered (stat_error message) v p e h =
    rw e (process_error-Holds v.file (other_error message) (lookup v.file p.index) p refl h)
answered (stats info) v p e h = rw e (
    if-Both Gives info.is_dir _ _
      (λ d. process_error-Holds v.file (skip_error "Directory") (lookup v.file p.index) p refl h)
      (λ d. process_found-Gives v info (lookup v.file p.index) p refl h))

pub process_file-Gives : (v : Visit) (p : Prospector) → Holds nowhere p → Gives (process_file v p)
process_file-Gives v p h = answered v.result v p refl h
