-- ===== src/Prospector/Scan/Moves.antt =====
-- What the prospector (lc-lib/prospector) does for a file that was moved, and for a new file.
use log_courier.Common.{
  ℕ, ◌<◌, ◌≡◌, refl, sym, ap, ◌∙◌, Bool, true, false, ◌&&◌, String, List, [], ◌∷◌, some, arith, ltb,
  ◌==◌, if-Both, if◌then◌else◌, lookup, delete, string_eq, lookup-delete, beq_refl,
}
use log_courier.Prospector.Info.{orphaned_no, FileInfo, ProspectorInfo, from_file_info}
use log_courier.Prospector.State.{
  Prospector, mem, remove, is_no, is_invalid, set_info, alloc, act, renamed, discover, store,
  unstore, unset_index, set_orphaned, start_harvester_with_offset, start_harvester,
}
use log_courier.Prospector.Scan.{
  Visit, Lookup, duplicate, previous, is_candidate, find_ids, range, take_previous, rename,
  discovered, rotated, is_dead,
}
use log_courier.Prospector.Scan.Index.{
  has_stat, Holds, mem-remove, absent-Holds, alloc-Holds, store-Holds, unstore-Holds,
  unset_index-Holds, kept,
}
use log_courier.Prospector.Scan.Files.{Fits, infos-set_info, start-Holds}
use log_courier.Prospector.Scan.Steps.{store-Fits}

candidate-valid :
    (file : String) (info : FileInfo) (ki : ProspectorInfo)
    → is_candidate file info ki ≡ true
    → is_invalid ki.status ≡ false
unfolding is_candidate
candidate-valid file info ki c = ground arith

abbrev found_id : Lookup → ℕ
found_id (previous id) = id
found_id _ = 0

-- What `lookupFileIds` finds is in the range, and is no stub.
pub find_ids-previous :
    (file : String) (info : FileInfo) (p : Prospector) (ids : List ℕ) (id : ℕ)
    → find_ids file info p ids ≡ previous id
    → (mem id ids ≡ true) × (is_invalid (p.infos id).status ≡ false)
unfolding find_ids is_candidate mem
find_ids-previous file info p [] id e = absurd (ground arith)
find_ids-previous file info p (other ∷ ids) id e =
    let ki = p.infos other in
    let There = λ (r : Lookup).
      r ≡ previous id → (mem id (other ∷ ids) ≡ true) × (is_invalid (p.infos id).status ≡ false) in
    if-Both There (is_candidate file info ki)
      (if ki.last_seen == p.iteration then duplicate else previous other) (find_ids file info p ids)
      (λ c.
        if-Both There (ki.last_seen == p.iteration) duplicate (previous other)
          (λ d q. absurd (ground arith))
          (λ d q. (
            ground (arith, ap found_id q),
            ap (λ x. is_invalid (p.infos x).status) (sym (ap found_id q))
                ∙ candidate-valid file info ki c,
          )))
      (λ c q. let (m, i) = find_ids-previous file info p ids id q in (ground (arith, m), i)) e

pub mem-range : (id : ℕ) (first ids : List ℕ) → mem id (range first ids) ≡ mem id ids
unfolding range mem
mem-range id [] ids = refl
mem-range id (other ∷ first) ids =
    ground (
      arith,
      mem-range id first ids,
      mem-range id first (remove other ids),
      mem-remove other id ids,
    )

-- The collections without the info that was found.
record Taken (skip : String → Bool) (id : ℕ) (p p' : Prospector) : Type 0 where
  holds : Holds skip p'
  absent : (f : String) → lookup f p'.index ≡ some id → skip f ≡ false → ⊥
  orphan : is_no (p'.infos id).orphaned ≡ true
  status : (p'.infos id).status ≡ (p.infos id).status
  allocated : p'.allocated ≡ p.allocated

pub indexed-absent :
    (skip : String → Bool) (id : ℕ) (p : Prospector) (f : String)
    → Holds skip p
    → lookup f (delete (p.infos id).file p.index) ≡ some id
    → skip f ≡ false
    → ⊥
indexed-absent skip id p f h l k =
    let same = h.name f id (kept (p.infos id).file f id p.index l) k in
    ground (
      arith,
      lookup-delete (p.infos id).file f p.index,
      ap (λ x. string_eq.beq x f) same ∙ beq_refl f,
      l,
    )

pub orphan-absent :
    (skip : String → Bool) (id : ℕ) (p : Prospector) (f : String)
    → Holds skip p
    → is_no (p.infos id).orphaned ≡ false
    → lookup f p.index ≡ some id
    → skip f ≡ false
    → ⊥
orphan-absent skip id p f h o l k = ground (arith, h.orphan f id l k)

take_previous-Taken :
    (skip : String → Bool) (id : ℕ) (p : Prospector)
    → Holds skip p
    → Taken skip id p (take_previous id p)
unfolding take_previous unset_index unstore set_orphaned
take_previous-Taken skip id p h =
    let ki = p.infos id in
    let lone = record ki { orphaned = orphaned_no } in
    if-Both (Taken skip id p) (is_no ki.orphaned) (unset_index ki.file (unstore id p))
      (set_orphaned id orphaned_no (unstore id p))
      (λ e. record {
        holds =
            unstore-Holds skip id (unset_index ki.file p)
              (λ f l k. indexed-absent skip id p f h l k) (unset_index-Holds skip ki.file p h);
        absent = λ f l k. indexed-absent skip id p f h l k;
        orphan = e;
        status = refl;
        allocated = refl;
      })
      (λ e. record {
        holds =
            absent-Holds skip id lone (unstore id p) (λ f l k. orphan-absent skip id p f h e l k)
              (h.stats id) (unstore-Holds skip id p (λ f l k. orphan-absent skip id p f h e l k) h);
        absent = λ f l k. orphan-absent skip id p f h e l k;
        orphan = ap (λ x. is_no x.orphaned) (infos-set_info id lone (unstore id p));
        status = ap (λ x. x.status) (infos-set_info id lone (unstore id p));
        allocated = refl;
      })

pub rename-Fits :
    (skip : String → Bool) (v : Visit) (id : ℕ) (p : Prospector)
    → id < p.allocated
    → is_invalid (p.infos id).status ≡ false
    → Holds skip p
    → Holds skip (rename v id p) × Fits v.file id (rename v id p)
unfolding rename act
rename-Fits skip v id p b i h =
    let t = take_previous-Taken skip id p h in
    let p' = take_previous id p in
    let info = record (p'.infos id) { file = v.file } in
    let moved = set_info id info p' in
    let same = infos-set_info id info p' in
    let q = act (renamed id v.file) moved in
    (
      store-Holds skip id q (omega (arith, b, t.allocated))
          (absent-Holds skip id info p' t.absent (t.holds.stats id) t.holds),
      store-Fits v.file id q (ap (λ x. x.file) same) (ap (λ x. is_no x.orphaned) same ∙ t.orphan)
          (ap (λ x. is_invalid x.status) same ∙ ap is_invalid t.status ∙ i),
    )

-- A new info, before its harvester starts.
launched-Fits :
    (skip : String → Bool) (v : Visit) (info : FileInfo) (p : Prospector)
    → Holds skip p
    → let q = start_harvester p.allocated info (alloc (from_file_info v.file info) p) in
      Holds skip (store p.allocated q) × Fits v.file p.allocated (store p.allocated q)
unfolding start_harvester start_harvester_with_offset act alloc store set_info from_file_info
launched-Fits skip v info p h =
    let id = p.allocated in
    let pi = from_file_info v.file info in
    let same = infos-set_info id pi p in
    let offset = if p.from_beginning then 0 else info.size in
    let q = act (discover id ((alloc pi p).infos id).file offset) (alloc pi p) in
    let f =
      store-Fits v.file id q (ap (λ x. x.file) same) (ap (λ x. is_no x.orphaned) same)
        (ap (λ x. is_invalid x.status) same) in
    let (h', g) =
      start-Holds skip v.file id offset (store id q) (ap (λ x. has_stat x.identity) same) f
        (store-Holds skip id q (omega arith) (alloc-Holds skip pi p (λ k. refl) h)) in
    (h', record { name = g.name; orphan = g.orphan; member = g.member; valid = g.valid })

pub rotated-Fits :
    (skip : String → Bool) (v : Visit) (info : FileInfo) (p : Prospector)
    → Holds skip p
    → Holds skip (rotated v info p) × Fits v.file p.allocated (rotated v info p)
unfolding rotated
rotated-Fits skip v info p h = launched-Fits skip v info p h

pub discovered-Fits :
    (skip : String → Bool) (v : Visit) (info : FileInfo) (p : Prospector)
    → Holds skip p
    → Holds skip (discovered v info p) × Fits v.file p.allocated (discovered v info p)
unfolding discovered act from_file_info
discovered-Fits skip v info p h =
    let id = p.allocated in
    let pi = record (from_file_info v.file info) { finish_offset = info.size } in
    let same = infos-set_info id pi p in
    let q = act (discover id v.file info.size) (alloc pi p) in
    if-Both (λ r. Holds skip (store id r) × Fits v.file id (store id r))
      (ltb info.mod_time p.last_scan && is_dead v info) q
      (start_harvester id info (alloc (from_file_info v.file info) p))
      (λ e. (
        store-Holds skip id q (omega arith) (alloc-Holds skip pi p (λ k. refl) h),
        store-Fits v.file id q (ap (λ x. x.file) same) (ap (λ x. is_no x.orphaned) same)
            (ap (λ x. is_invalid x.status) same),
      ))
      (λ e. launched-Fits skip v info p h)
