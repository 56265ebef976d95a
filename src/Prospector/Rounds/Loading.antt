-- ===== src/Prospector/Rounds/Loading.antt =====
-- The prospector that starts (lc-lib/prospector) has the files of the registry in its index, and
-- its iterations keep the index as it should be.
use log_courier.Common.{
  ℕ, ◌≡◌, refl, sym, ap, ◌∙◌, inl, inr, Bool, true, false, ◌||◌, Bool-cases, String, List, [], ◌∷◌,
  ◌++◌, append-nil, Option, none, some, arith, ◌==◌, ==_lem, if◌then◌else◌, Assoc, lookup, insert,
  string_eq,
}
use log_courier.Registrar.{FileState}
use log_courier.Prospector.Info.{ProspectorInfo, from_file_state, from_file_info}
use log_courier.Prospector.State.{Prospector, mem, is_no, set_info, alloc, store, set_index}
use log_courier.Prospector.Rounds.{Iteration, run, load, store_all, empty, new_prospector}
use log_courier.Prospector.Scan.Index.{IsIndexed, Holds, nowhere, is_ok, absent-Holds, added}
use log_courier.Prospector.Scan.Files.{Gives, infos-set_info}
use log_courier.Prospector.Rounds.Iterations.{run-Gives}

-- The infos of an index.
abbrev ids : Assoc String ℕ → List ℕ
ids [] = []
ids ((file, id) ∷ index) = id ∷ ids index

lookup-mem :
    (f : String) (id : ℕ) (index : Assoc String ℕ)
    → lookup f index ≡ some id
    → mem id (ids index) ≡ true
unfolding lookup mem
lookup-mem f id [] l = absurd (ground arith)
lookup-mem f id ((g, j) ∷ index) l = elim (Bool-cases (string_eq.beq g f)) [
  | inl e ↦ ground arith
  | inr e ↦ ground (arith, lookup-mem f id index)
]

mem-insert :
    (file : String) (id j : ℕ) (index : Assoc String ℕ)
    → mem j (ids (insert file id index)) ≡ true
    → (id == j) ≡ false
    → mem j (ids index) ≡ true
unfolding insert mem
mem-insert file id j [] m n = ground arith
mem-insert file id j ((g, i) ∷ index) m n = elim (Bool-cases (string_eq.beq g file)) [
  | inl e ↦ ground arith
  | inr e ↦ ground (arith, mem-insert file id j index)
]

mem-store :
    (id j : ℕ) (p : Prospector)
    → mem j (store id p).prospectors ≡ (if id == j then true else mem j p.prospectors)
unfolding store mem
mem-store id j p = elim (Bool-cases (id == j)) [
  | inl e ↦ ground (arith, ap (λ x. mem x p.prospectors) (==_lem id j e))
  | inr e ↦ ground arith
]

mem-append : (j : ℕ) (xs ys : List ℕ) → mem j (xs ++ ys) ≡ (mem j xs || mem j ys)
unfolding mem
mem-append j [] ys = refl
mem-append j (x ∷ xs) ys = ground (arith, mem-append j xs ys)

-- The collection counts by what it holds.
members-IsIndexed :
    (p : Prospector) (xs ys : List ℕ)
    → ((j : ℕ) → mem j xs ≡ mem j ys)
    → IsIndexed nowhere p.index p.infos xs p.allocated
    → IsIndexed nowhere p.index p.infos ys p.allocated
members-IsIndexed p xs ys e h = record {
  name = h.name;
  orphan = h.orphan;
  member = λ f j l k. sym (e j) ∙ h.member f j l k;
  bound = λ j m. h.bound j (e j ∙ m);
  stats = h.stats;
}

store_all-Holds :
    (index : Assoc String ℕ) (p : Prospector)
    → IsIndexed nowhere p.index p.infos (ids index ++ p.prospectors) p.allocated
    → Holds nowhere (store_all index p)
unfolding store_all store
store_all-Holds [] p h = h
store_all-Holds ((file, id) ∷ index) p h = store_all-Holds index (store id p) (
    members-IsIndexed p _ (ids index ++ (store id p).prospectors)
      (λ j.
        unfold mem in
        ground (
          arith,
          mem-append j (ids index) p.prospectors,
          mem-append j (ids index) (store id p).prospectors,
          mem-store id j p,
        ))
      h)

-- While the registry is loaded the collection is to be the infos of the index.
abbrev Loads : Prospector → Type 0
Loads p = IsIndexed nowhere p.index p.infos (ids p.index) p.allocated

load_one-Loads :
    (file : String) (info : ProspectorInfo) (p : Prospector)
    → info.file ≡ file
    → is_no info.orphaned ≡ true
    → is_ok info.status ≡ false
    → Loads p
    → Loads (set_index file p.allocated (alloc info p))
unfolding set_index alloc set_info
load_one-Loads file info p n o s h =
    let id = p.allocated in
    let infos = (set_info id info p).infos in
    let same = infos-set_info id info p in
    let h' =
      absent-Holds nowhere id info (record p { prospectors = ids p.index })
        (λ f l k. omega (arith, h.bound id (h.member f id l k))) (λ k. ground arith) h in
    record {
      name = λ f j l k. elim (added file f id j p.index l) [
        | inl (e, i) ↦ ap (λ x. (infos x).file) (sym i) ∙ ap (λ x. x.file) same ∙ n ∙ e
        | inr (e, l') ↦ h'.name f j l' k
      ];
      orphan = λ f j l k. elim (added file f id j p.index l) [
        | inl (e, i) ↦
            ap (λ x. is_no (infos x).orphaned) (sym i) ∙ ap (λ x. is_no x.orphaned) same ∙ o
        | inr (e, l') ↦ h'.orphan f j l' k
      ];
      member = λ f j l k. lookup-mem f j (insert file id p.index) l;
      bound = λ j m. elim (Bool-cases (id == j)) [
        | inl e ↦ omega (arith, ==_lem id j e)
        | inr e ↦ omega (arith, h.bound j (mem-insert file id j p.index m e))
      ];
      stats = h'.stats;
    }

load-Loads : (states : List (String × FileState)) (p : Prospector) → Loads p → Loads (load states p)
unfolding load from_file_state
load-Loads [] p h = h
load-Loads ((file, state) ∷ states) p h =
    load-Loads states (set_index file p.allocated (alloc (from_file_state file state) p))
      (load_one-Loads file (from_file_state file state) p refl refl refl h)

empty-Holds : (from_beginning : Bool) → Holds nowhere (empty from_beginning)
unfolding empty from_file_info mem lookup
empty-Holds from_beginning = record {
  name = λ f id l k. absurd (ground arith);
  orphan = λ f id l k. absurd (ground arith);
  member = λ f id l k. absurd (ground arith);
  bound = λ id m. absurd (ground arith);
  stats = λ id k. refl;
}

load-prospectors :
    (states : List (String × FileState)) (p : Prospector)
    → (load states p).prospectors ≡ p.prospectors
unfolding load set_index alloc set_info
load-prospectors [] p = refl
load-prospectors ((file, state) ∷ states) p = load-prospectors states _

pub new_prospector-Holds :
    (from_beginning : Bool) (states : Option (List (String × FileState)))
    → Holds nowhere (new_prospector from_beginning states)
unfolding new_prospector empty
new_prospector-Holds from_beginning none = empty-Holds from_beginning
new_prospector-Holds from_beginning (some states) =
    let p = load states (empty true) in
    let h = load-Loads states (empty true) (empty-Holds true) in
    store_all-Holds p.index p (
      members-IsIndexed p (ids p.index) (ids p.index ++ p.prospectors)
        (λ j. ap (mem j) (
          sym (append-nil (ids p.index))
          ∙ ap (λ ps. ids p.index ++ ps) (sym (load-prospectors states (empty true)))))
        h)

given :
    (o : Option Prospector)
    → Gives o
    → (p : Prospector) × (o ≡ some p)
      × ((file : String) (id : ℕ)
          → lookup file p.index ≡ some id
          → ((p.infos id).file ≡ file)
            × (is_no (p.infos id).orphaned ≡ true)
            × (mem id p.prospectors ≡ true))
given none g = absurd g
given (some p) h =
    (p, refl, λ f id l. (h.name f id l refl, h.orphan f id l refl, h.member f id l refl))

-- However many iterations the prospector makes, whatever the system calls and the harvesters'
-- channels answer, and in whatever order the maps are ranged over, no call meets an identity
-- without file information, and in the end each entry of the index has an info of that name in the
-- collection that is no orphan.
pub run-new_prospector-IsIndexed :
    (from_beginning : Bool) (states : Option (List (String × FileState)))
    (iterations : List Iteration)
    → (p : Prospector) × (run iterations (new_prospector from_beginning states) ≡ some p)
      × ((file : String) (id : ℕ)
          → lookup file p.index ≡ some id
          → ((p.infos id).file ≡ file)
            × (is_no (p.infos id).orphaned ≡ true)
            × (mem id p.prospectors ≡ true))
run-new_prospector-IsIndexed from_beginning states iterations =
    given (run iterations (new_prospector from_beginning states)) (
      run-Gives iterations (new_prospector from_beginning states)
        (new_prospector-Holds from_beginning states))
