-- ===== src/Endpoint/Timeouts/Armed.antt =====
-- Which timeouts of lc-lib/endpoint/sink_timeout.go have a function: those in the list.
use log_courier.Common.{
  ℕ, ◌-◌, ◌≡◌, refl, sym, ap, ◌∙◌, subst, Bool, true, false, Bool-cases, inl, inr, List, [], ◌∷◌,
  arith, ltb, ◌==◌, if-Both, if-true, if-false, if◌then◌else◌, count,
}
use log_courier.Endpoint.Lists.{once}
use log_courier.Endpoint.Timeouts.{
  Timeout, Timeouts, reset_timeout_timer, without, clear_timeout, insert_due, register_timeout,
  register_all, fire,
}

abbrev pub ids : List Timeout → List ℕ
ids [] = []
ids (t ∷ list) = t.id ∷ ids list

-- A timeout has a function exactly if it is in the list, and is there once.
abbrev pub IsMatched : (ℕ → Bool) → List Timeout → Type 0
IsMatched armed list = (id : ℕ) → count id (ids list) ≡ once (armed id)

insert_due-count :
    (id : ℕ) (t : Timeout) (list : List Timeout)
    → count id (ids (insert_due t list)) ≡ count id (t.id ∷ ids list)
unfolding insert_due count
insert_due-count id t [] = refl
insert_due-count id t (u ∷ list) =
    if-Both (λ l. count id (ids l) ≡ count id (t.id ∷ u.id ∷ ids list)) (ltb t.due u.due)
      (t ∷ u ∷ list) (u ∷ insert_due t list) (λ e. refl)
      (λ e. ground (arith, insert_due-count id t list))

without-count :
    (id j : ℕ) (list : List Timeout)
    → count id (ids (without j list))
      ≡ (if j == id then count id (ids list) - 1 else count id (ids list))
unfolding without count
without-count id j [] = ground arith
without-count id j (t ∷ list) =
    if-Both
      (λ l.
        count id (ids l)
        ≡ (if j == id then count id (ids (t ∷ list)) - 1 else count id (ids (t ∷ list))))
      (t.id == j) list (t ∷ without j list) (λ e. ground (arith, e))
      (λ e. ground (arith, e, without-count id j list))

clear_timeout-count :
    (id j : ℕ) (s : Timeouts)
    → IsMatched s.armed s.timeout_list
    → count j (ids (clear_timeout id s).timeout_list) ≡ (if id == j then 0 else once (s.armed j))
unfolding clear_timeout
clear_timeout-count id j s h = elim (Bool-cases (s.armed id)) [
  | inl on ↦
      ap (λ (q : Timeouts). count j (ids q.timeout_list)) (if-true (s.armed id) _ _ on)
      ∙ without-count j id s.timeout_list
      ∙ ground (arith, h j, h id, on)
  | inr off ↦
      ap (λ (q : Timeouts). count j (ids q.timeout_list)) (if-false (s.armed id) _ _ off)
      ∙ ground (arith, h j, h id, off)
]

clear_timeout-armed : (id : ℕ) (s : Timeouts) → (clear_timeout id s).armed ≡ s.armed
unfolding clear_timeout
clear_timeout-armed id s =
    if-Both (λ (q : Timeouts). q.armed ≡ s.armed) (s.armed id) _ s (λ e. refl) (λ e. refl)

register_timeout-IsMatched :
    (t : Timeout) (s : Timeouts)
    → IsMatched s.armed s.timeout_list
    → IsMatched (register_timeout t s).armed (register_timeout t s).timeout_list
unfolding register_timeout reset_timeout_timer count
register_timeout-IsMatched t s h j =
    let same = ap (λ armed. armed j) (clear_timeout-armed t.id s) in
    insert_due-count j t (clear_timeout t.id s).timeout_list
    ∙ ground (arith, clear_timeout-count t.id j s h, same)

pub register_all-IsMatched :
    (timeouts : List Timeout) (s : Timeouts)
    → IsMatched s.armed s.timeout_list
    → IsMatched (register_all timeouts s).armed (register_all timeouts s).timeout_list
unfolding register_all
register_all-IsMatched [] s h = h
register_all-IsMatched (t ∷ timeouts) s h =
    register_all-IsMatched timeouts (register_timeout t s) (register_timeout-IsMatched t s h)

-- A timeout that is fired, where its callback registers none.
pub record IsFired (t : Timeout) (list : List Timeout) (s s' : Timeouts) : Type 0 where
  pub left : s'.timeout_list ≡ list
  pub called : s'.fired ≡ t.id ∷ s.fired
  pub matched : IsMatched s'.armed list

pub fire-IsFired :
    (callback : ℕ → List Timeout) (t : Timeout) (list : List Timeout) (s : Timeouts)
    → callback t.id ≡ []
    → IsMatched s.armed (t ∷ list)
    → IsFired t list s (fire callback t.id (record s { timeout_list = list }))
unfolding fire register_all count
fire-IsFired callback t list s e h =
    let on : s.armed t.id ≡ true = ground (arith, h t.id) in
    let s' = record s {
      timeout_list = list;
      armed = λ other. if t.id == other then false else s.armed other;
      fired = t.id ∷ s.fired;
    } in
    subst (IsFired t list s)
      (sym (if-true (s.armed t.id) _ _ on ∙ ap (λ timeouts. register_all timeouts s') e))
      record { left = refl; called = refl; matched = λ j. ground (arith, h j, h t.id) }
