-- ===== src/Prospector/Scan/Index.antt =====
-- What the index of the prospector (lc-lib/prospector) holds: an entry's info is in the collection,
-- has the name under which it stands, and is no orphan.
use log_courier.Common.{
  ℕ, ◌<◌, ◌≡◌, sym, ap, ◌⊎◌, ◌∙◌, inl, inr, Bool, true, false, Bool-cases, String, List, [], ◌∷◌,
  some, arith, ◌==◌, ==_lem, if-Both, if◌then◌else◌, Assoc, lookup, insert, delete, string_eq,
  lookup-insert, lookup-delete,
}
use log_courier.Prospector.Info.{Status, status_ok, Identity, found, ProspectorInfo}
use log_courier.Prospector.State.{
  Prospector, mem, remove, is_no, alloc, store, unstore, set_index, unset_index, set_info,
}

abbrev pub is_ok : Status → Bool
is_ok status_ok = true
is_ok _ = false

abbrev pub has_stat : Identity → Bool
has_stat (found info) = true
has_stat _ = false

-- `skip` are the names whose entries are about to change.
pub record IsIndexed (skip : String → Bool) (index : Assoc String ℕ) (infos : ℕ → ProspectorInfo)
    (prospectors : List ℕ) (allocated : ℕ) : Type 0 where
  pub name : (f : String) (id : ℕ) → lookup f index ≡ some id → skip f ≡ false → (infos id).file ≡ f
  pub orphan :
      (f : String) (id : ℕ)
      → lookup f index ≡ some id
      → skip f ≡ false
      → is_no (infos id).orphaned ≡ true
  pub member :
      (f : String) (id : ℕ) → lookup f index ≡ some id → skip f ≡ false → mem id prospectors ≡ true
  pub bound : (id : ℕ) → mem id prospectors ≡ true → id < allocated
  pub stats : (id : ℕ) → is_ok (infos id).status ≡ true → has_stat (infos id).identity ≡ true

abbrev pub Holds : (String → Bool) → Prospector → Type 0
Holds skip p = IsIndexed skip p.index p.infos p.prospectors p.allocated

abbrev pub nowhere : String → Bool
nowhere f = false

pub mem-remove :
    (id j : ℕ) (ids : List ℕ) → mem j (remove id ids) ≡ (if id == j then false else mem j ids)
unfolding mem remove
mem-remove id j [] = ground arith
mem-remove id j (other ∷ ids) = ground (arith, mem-remove id j ids)

-- What is left of an index was there before.
pub kept :
    (file f : String) (j : ℕ) (index : Assoc String ℕ)
    → lookup f (delete file index) ≡ some j
    → lookup f index ≡ some j
kept file f j index l = elim (Bool-cases (string_eq.beq file f)) [
  | inl e ↦ ground (arith, lookup-delete file f index)
  | inr e ↦ ground (arith, lookup-delete file f index)
]

-- What an index with one more entry says of a name.
pub added :
    (file f : String) (id j : ℕ) (index : Assoc String ℕ)
    → lookup f (insert file id index) ≡ some j
    → ((file ≡ f) × (id ≡ j)) ⊎ ((string_eq.beq file f ≡ false) × (lookup f index ≡ some j))
added file f id j index l = elim (Bool-cases (string_eq.beq file f)) [
  | inl e ↦ inl ((string_eq.beq_iff file f).0 e, ground (arith, lookup-insert file f id index))
  | inr e ↦ inr (e, ground (arith, lookup-insert file f id index))
]

-- What a change of an info must leave as the index has it.
pub set_info-Holds :
    (skip : String → Bool) (id : ℕ) (info : ProspectorInfo) (p : Prospector)
    → ((f : String) → lookup f p.index ≡ some id → skip f ≡ false → info.file ≡ f)
    → ((f : String) → lookup f p.index ≡ some id → skip f ≡ false → is_no info.orphaned ≡ true)
    → (is_ok info.status ≡ true → has_stat info.identity ≡ true)
    → Holds skip p
    → Holds skip (set_info id info p)
unfolding set_info
set_info-Holds skip id info p n o s h = record {
  name = λ f j l k.
      if-Both (λ i. i.file ≡ f) (id == j) info (p.infos j)
        (λ e. n f (l ∙ ap some (sym (==_lem id j e))) k) (λ e. h.name f j l k);
  orphan = λ f j l k.
      if-Both (λ i. is_no i.orphaned ≡ true) (id == j) info (p.infos j)
        (λ e. o f (l ∙ ap some (sym (==_lem id j e))) k) (λ e. h.orphan f j l k);
  member = h.member;
  bound = h.bound;
  stats = λ j.
      if-Both (λ i. is_ok i.status ≡ true → has_stat i.identity ≡ true) (id == j) info (p.infos j)
        (λ e. s) (λ e. h.stats j);
}

-- A change that keeps the name and the mark of an orphan.
pub same-Holds :
    (skip : String → Bool) (id : ℕ) (info : ProspectorInfo) (p : Prospector)
    → info.file ≡ (p.infos id).file
    → info.orphaned ≡ (p.infos id).orphaned
    → (is_ok info.status ≡ true → has_stat info.identity ≡ true)
    → Holds skip p
    → Holds skip (set_info id info p)
same-Holds skip id info p n o s h =
    set_info-Holds skip id info p (λ f l k. n ∙ h.name f id l k)
      (λ f l k. ap is_no o ∙ h.orphan f id l k) s h

-- A change of an info that is nowhere in the index.
pub absent-Holds :
    (skip : String → Bool) (id : ℕ) (info : ProspectorInfo) (p : Prospector)
    → ((f : String) → lookup f p.index ≡ some id → skip f ≡ false → ⊥)
    → (is_ok info.status ≡ true → has_stat info.identity ≡ true)
    → Holds skip p
    → Holds skip (set_info id info p)
absent-Holds skip id info p a s h =
    set_info-Holds skip id info p (λ f l k. absurd (a f l k)) (λ f l k. absurd (a f l k)) s h

pub alloc-Holds :
    (skip : String → Bool) (info : ProspectorInfo) (p : Prospector)
    → (is_ok info.status ≡ true → has_stat info.identity ≡ true)
    → Holds skip p
    → Holds skip (alloc info p)
unfolding alloc set_info
alloc-Holds skip info p s h =
    let h' =
      absent-Holds skip p.allocated info p
        (λ f l k. omega (arith, h.bound p.allocated (h.member f p.allocated l k))) s h in
    record {
      name = h'.name;
      orphan = h'.orphan;
      member = h'.member;
      bound = λ j m. omega (arith, h'.bound j m);
      stats = h'.stats;
    }

pub store-Holds :
    (skip : String → Bool) (id : ℕ) (p : Prospector)
    → id < p.allocated
    → Holds skip p
    → Holds skip (store id p)
unfolding store mem
store-Holds skip id p b h = record {
  name = h.name;
  orphan = h.orphan;
  member = λ f j l k. ground (arith, h.member f j l k);
  bound = λ j.
      if-Both (λ ids. mem j ids ≡ true → j < p.allocated) (mem id p.prospectors) _ _
        (λ e. h.bound j) (λ e m. ground (arith, h.bound j));
  stats = h.stats;
}

-- An info leaves the collection that is nowhere in the index.
pub unstore-Holds :
    (skip : String → Bool) (id : ℕ) (p : Prospector)
    → ((f : String) → lookup f p.index ≡ some id → skip f ≡ false → ⊥)
    → Holds skip p
    → Holds skip (unstore id p)
unfolding unstore
unstore-Holds skip id p a h = record {
  name = h.name;
  orphan = h.orphan;
  member = λ f j l k. elim (Bool-cases (id == j)) [
    | inl e ↦ absurd (a f (l ∙ ap some (sym (==_lem id j e))) k)
    | inr e ↦ mem-remove id j p.prospectors ∙ rw e (h.member f j l k)
  ];
  bound = λ j m. h.bound j (elim (Bool-cases (id == j)) [
    | inl e ↦ ground (arith, mem-remove id j p.prospectors)
    | inr e ↦ ground (arith, mem-remove id j p.prospectors)
  ]);
  stats = h.stats;
}

-- The names of the index but one.
abbrev pub but : String → String → Bool
but file f = string_eq.beq file f

-- The entry of a name, with which its info is as the index has it.
pub set_index-Holds :
    (file : String) (id : ℕ) (p : Prospector)
    → (p.infos id).file ≡ file
    → is_no (p.infos id).orphaned ≡ true
    → mem id p.prospectors ≡ true
    → Holds (but file) p
    → Holds nowhere (set_index file id p)
unfolding set_index
set_index-Holds file id p n o m h = record {
  name = λ f j l k. elim (added file f id j p.index l) [
    | inl (e, i) ↦ ap (λ x. (p.infos x).file) (sym i) ∙ n ∙ e
    | inr (e, l') ↦ h.name f j l' e
  ];
  orphan = λ f j l k. elim (added file f id j p.index l) [
    | inl (e, i) ↦ ap (λ x. is_no (p.infos x).orphaned) (sym i) ∙ o
    | inr (e, l') ↦ h.orphan f j l' e
  ];
  member = λ f j l k. elim (added file f id j p.index l) [
    | inl (e, i) ↦ ap (λ x. mem x p.prospectors) (sym i) ∙ m
    | inr (e, l') ↦ h.member f j l' e
  ];
  bound = h.bound;
  stats = h.stats;
}

pub unset_index-Holds :
    (skip : String → Bool) (file : String) (p : Prospector)
    → Holds skip p
    → Holds skip (unset_index file p)
unfolding unset_index
unset_index-Holds skip file p h = record {
  name = λ f j l. h.name f j (kept file f j p.index l);
  orphan = λ f j l. h.orphan f j (kept file f j p.index l);
  member = λ f j l. h.member f j (kept file f j p.index l);
  bound = h.bound;
  stats = h.stats;
}
