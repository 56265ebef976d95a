-- ===== src/Prospector/Rounds/Cleaning.antt =====
-- The cleaning of the prospector's collections at the end of an iteration (lc-lib/prospector,
-- runOnce).
use log_courier.Common.{
  ℕ, ◌≡◌, refl, sym, ap, ◌∙◌, inl, inr, true, false, Bool-cases, String, List, [], ◌∷◌, Option,
  none, some, arith, leb, ◌==◌, ==_lem, if-Both, Assoc, lookup, delete, string_eq, lookup-delete,
  beq_refl, subst,
}
use log_courier.Prospector.Info.{
  Orphaned, orphaned_no, orphaned_maybe, orphaned_yes, ProspectorInfo, FinishStatus,
  set_harvester_stopped,
}
use log_courier.Prospector.State.{
  Prospector, mem, is_no, set_info, act, finish, unstore, unset_index, set_orphaned, poll,
}
use log_courier.Prospector.Rounds.{forget, clean_orphan, clean_info, clean}
use log_courier.Prospector.Rounds.Iterations.{poll-index}

delete-none :
    (f g : String) (index : Assoc String ℕ)
    → lookup f index ≡ none
    → lookup f (delete g index) ≡ none
delete-none f g index l = ground (arith, lookup-delete g f index)

-- What no step of the cleaning does to an info that it does not look at.
record Leaves (id : ℕ) (p p' : Prospector) : Type 0 where
  info : p'.infos id ≡ p.infos id
  iteration : p'.iteration ≡ p.iteration
  index : (f : String) → lookup f p.index ≡ none → lookup f p'.index ≡ none

set_info-Leaves :
    (id j : ℕ) (info : ProspectorInfo) (p : Prospector)
    → (j == id) ≡ false
    → Leaves id p (set_info j info p)
unfolding set_info
set_info-Leaves id j info p n = record { info = ground arith; iteration = refl; index = λ f l. l }

poll-Leaves :
    (answer : Option FinishStatus) (id j : ℕ) (p : Prospector)
    → (j == id) ≡ false
    → Leaves id p (poll answer j p)
unfolding poll act
poll-Leaves none id j p n = record { info = refl; iteration = refl; index = λ f l. l }
poll-Leaves (some status) id j p n =
    let info = set_harvester_stopped status (p.infos j) in
    let s = set_info-Leaves id j info p n in
    if-Both (Leaves id p) (p.infos j).running (act (finish j) (set_info j info p)) p
      (λ e. record { info = s.info; iteration = s.iteration; index = s.index })
      (λ e. record { info = refl; iteration = refl; index = λ f l. l })

clean_orphan-Leaves :
    (answer : Option FinishStatus) (id j : ℕ) (p : Prospector)
    → (j == id) ≡ false
    → Leaves id p (clean_orphan answer j p)
unfolding clean_orphan unstore
clean_orphan-Leaves answer id j p n =
    let p' = poll answer j p in
    let s = poll-Leaves answer id j p n in
    if-Both (Leaves id p) (p'.infos j).running p' (unstore j p') (λ e. s)
      (λ e. record { info = s.info; iteration = s.iteration; index = s.index })

forget-Leaves :
    (id j : ℕ) (p p' : Prospector) → (j == id) ≡ false → Leaves id p p' → Leaves id p (forget j p')
unfolding forget act set_orphaned
forget-Leaves id j p p' n s =
    let t = set_info-Leaves id j (record (p'.infos j) { orphaned = orphaned_yes }) p' n in
    record {
      info = t.info ∙ s.info;
      iteration = t.iteration ∙ s.iteration;
      index = λ f l. t.index f (s.index f l);
    }

clean_info-Leaves :
    (answer : Option FinishStatus) (id j : ℕ) (orphaned : Orphaned) (p : Prospector)
    → (j == id) ≡ false
    → Leaves id p (clean_info answer j orphaned p)
unfolding clean_info unset_index
clean_info-Leaves answer id j orphaned_no p n =
    let file = (p.infos j).file in
    if-Both (Leaves id p) (leb p.iteration (p.infos j).last_seen) p (forget j (unset_index file p))
      (λ e. record { info = refl; iteration = refl; index = λ f l. l })
      (λ e.
        forget-Leaves id j p (unset_index file p) n
          (record { info = refl; iteration = refl; index = λ f l. delete-none f file p.index l }))
clean_info-Leaves answer id j orphaned_maybe p n =
    forget-Leaves id j p (clean_orphan answer j p) n (clean_orphan-Leaves answer id j p n)
clean_info-Leaves answer id j orphaned_yes p n = clean_orphan-Leaves answer id j p n

clean_orphan-index :
    (answer : Option FinishStatus) (id : ℕ) (p : Prospector)
    → (clean_orphan answer id p).index ≡ p.index
unfolding clean_orphan unstore
clean_orphan-index answer id p =
    let p' = poll answer id p in
    if-Both (λ q. q.index ≡ p.index) (p'.infos id).running p' (unstore id p')
      (λ e. poll-index answer id p) (λ e. poll-index answer id p)

clean_info-none :
    (answer : Option FinishStatus) (id : ℕ) (orphaned : Orphaned) (p : Prospector) (f : String)
    → lookup f p.index ≡ none
    → lookup f (clean_info answer id orphaned p).index ≡ none
unfolding clean_info unset_index forget act set_orphaned set_info
clean_info-none answer id orphaned_no p f l =
    let file = (p.infos id).file in
    if-Both (λ q. lookup f q.index ≡ none) (leb p.iteration (p.infos id).last_seen) p
      (forget id (unset_index file p)) (λ e. l) (λ e. delete-none f file p.index l)
clean_info-none answer id orphaned_maybe p f l = ap (lookup f) (clean_orphan-index answer id p) ∙ l
clean_info-none answer id orphaned_yes p f l = ap (lookup f) (clean_orphan-index answer id p) ∙ l

clean-none :
    (finished : ℕ → Option FinishStatus) (ids : List ℕ) (p : Prospector) (f : String)
    → lookup f p.index ≡ none
    → lookup f (clean finished ids p).index ≡ none
unfolding clean
clean-none finished [] p f l = l
clean-none finished (id ∷ ids) p f l =
    clean-none finished ids (clean_info (finished id) id (p.infos id).orphaned p) f
      (clean_info-none (finished id) id (p.infos id).orphaned p f l)

-- The round of an info that was not seen.
unseen-none :
    (answer : Option FinishStatus) (id : ℕ) (orphaned : Orphaned) (p : Prospector)
    → is_no orphaned ≡ true
    → leb p.iteration (p.infos id).last_seen ≡ false
    → lookup (p.infos id).file (clean_info answer id orphaned p).index ≡ none
unfolding clean_info forget unset_index act set_orphaned set_info
unseen-none answer id orphaned_no p o s =
    let file = (p.infos id).file in
    if-Both (λ q. lookup file q.index ≡ none) (leb p.iteration (p.infos id).last_seen) p
      (forget id (unset_index file p)) (λ e. absurd (ground (arith, e, s)))
      (λ e. ground (arith, lookup-delete file file p.index, beq_refl file))
unseen-none answer id orphaned_maybe p o s = absurd (ground arith)
unseen-none answer id orphaned_yes p o s = absurd (ground arith)

-- Where the range of the cleaning meets an info that is no orphan and was not seen in the
-- iteration, the name of that info has no entry afterwards, whatever info had the entry: also where
-- the info is a stub of an error and the entry was of the file that now stands there.
pub clean-unseen :
    (finished : ℕ → Option FinishStatus) (ids : List ℕ) (p : Prospector) (id : ℕ)
    → mem id ids ≡ true
    → is_no (p.infos id).orphaned ≡ true
    → leb p.iteration (p.infos id).last_seen ≡ false
    → lookup (p.infos id).file (clean finished ids p).index ≡ none
unfolding clean mem
clean-unseen finished [] p id m o s = absurd (ground arith)
clean-unseen finished (j ∷ ids) p id m o s =
    let q = clean_info (finished j) j (p.infos j).orphaned p in
    elim (Bool-cases (j == id)) [
      | inl e ↦
          let same = ==_lem j id e in
          subst (λ x. lookup (p.infos x).file (clean finished ids q).index ≡ none) same
            (clean-none finished ids q (p.infos j).file (
              unseen-none (finished j) j (p.infos j).orphaned p
                (ap (λ x. is_no (p.infos x).orphaned) same ∙ o)
                (ap (λ x. leb p.iteration (p.infos x).last_seen) same ∙ s)))
      | inr n ↦
          let l = clean_info-Leaves (finished j) id j (p.infos j).orphaned p n in
          sym (ap (λ i. lookup i.file (clean finished ids q).index) l.info)
          ∙ clean-unseen finished ids q id (ground (arith, m, n))
              (ap (λ i. is_no i.orphaned) l.info ∙ o)
              (ap (λ i. leb q.iteration i.last_seen) l.info
                ∙ ap (λ t. leb t (p.infos id).last_seen) l.iteration
                ∙ s)
    ]
