-- ===== src/InternalList/Lists.antt =====
-- Any operations on the ring of lc-lib/internallist are those on the list of its elements.
use log_courier.Common.{
  ℕ, ◌≡◌, refl, sym, ap, ◌∙◌, subst, ◌⊎◌, inl, inr, Bool, true, false, not, ◌&&◌, List, [], ◌∷◌,
  ◌++◌, append_assoc, Option, none, some, arith, ◌==◌, ==_lem, if-Both, if◌then◌else◌, count,
  count-append,
}
use log_courier.InternalList.{
  Ring, root, zero_list, set_next, set_prev, init, lazy_init, insert, unlink, remove, push_front,
  push_back, insert_after, move_after,
}
use log_courier.InternalList.Links.{last, prev-last}
use log_courier.InternalList.Rings.{IsRing, next-first, insert-root, insert-element, unlink-element}
use log_courier.Endpoint.{remove as remove_from}
use log_courier.InternalList.Operations.{
  put_after, Operation, pushes_front, pushes_back, removes, inserts_after, moves_after, step,
  list_step, IsAllowed, run, list_run, AllAllowed, split, remove_from-append, put_after-append,
  put_after-none, remove_from-none,
}

-- The ring of a list, or none is made yet.
abbrev pub Represents : Ring → List ℕ → Type 0
Represents r xs = ((r ≡ zero_list) × (xs ≡ [])) ⊎ IsRing r xs

abbrev Gives : Option Ring → List ℕ → Type 0
Gives none xs = ⊥
Gives (some r) xs = Represents r xs

gives : (o : Option Ring) (xs : List ℕ) → (r : Ring) × (o ≡ some r) × IsRing r xs → Gives o xs
gives o xs (r, e, h) = subst (λ q. Gives q xs) (sym e) (inr h)

pub lazy_init-IsRing : (r : Ring) (xs : List ℕ) → Represents r xs → IsRing (lazy_init r) xs
unfolding lazy_init init set_next set_prev zero_list count
lazy_init-IsRing r xs (inl (e, l)) =
    subst (λ q. IsRing (lazy_init q) xs) (sym e)
      (subst (IsRing (lazy_init zero_list)) (sym l) (record {
        linked = (refl, refl);
        once = λ x. ground arith;
        listed = λ x. refl;
        len = refl;
      }))
lazy_init-IsRing r xs (inr h) =
    subst (λ o. IsRing (elim o [ none ↦ init r | some n ↦ r ]) xs)
      (sym (next-first r.next r.prev root xs root h.linked)) h

present : (r : Ring) (xs : List ℕ) (e : ℕ) → IsRing r xs → r.listed e ≡ true → count e xs ≡ 1
present r xs e h l = ==_lem (count e xs) 1 (sym (h.listed e) ∙ l)

missing : (r : Ring) (xs : List ℕ) (e : ℕ) → IsRing r xs → r.listed e ≡ false → count e xs ≡ 0
unfolding count
missing r xs e h l = ground (arith, h.listed e, h.once e, l)

push_front-Gives :
    (e : ℕ) (r : Ring) (xs : List ℕ)
    → count e (root ∷ xs) ≡ 0
    → Represents r xs
    → Gives (push_front e r) (e ∷ xs)
unfolding push_front
push_front-Gives e r xs k h =
    gives (push_front e r) (e ∷ xs) (insert-root e xs (lazy_init r) k (lazy_init-IsRing r xs h))

snoc : (x : ℕ) (xs : List ℕ) → (ys : List ℕ) × (x ∷ xs ≡ ys ++ last x xs ∷ [])
snoc x [] = ([], refl)
snoc x (y ∷ xs) = let (ys, e) = snoc y xs in (x ∷ ys, ap (λ l. x ∷ l) e)

-- `insert` behind the last element.
insert-last :
    (e : ℕ) (q : Ring) (xs : List ℕ)
    → count e (root ∷ xs) ≡ 0
    → IsRing q xs
    → (r' : Ring) × (insert e (last root xs) q ≡ some r') × IsRing r' (xs ++ e ∷ [])
unfolding count
insert-last e q [] k h = insert-root e [] q k h
insert-last e q (x ∷ xs) k h =
    let (ys, s) = snoc x xs in
    let at = last x xs in
    let (r', i, h') =
      insert-element e at ys [] q (ap (λ l. count e (root ∷ l)) (sym s) ∙ k)
        (subst (IsRing q) s h) in
    (
      r',
      i,
      subst (IsRing r') (sym (append_assoc ys (at ∷ []) (e ∷ [])) ∙ ap (λ l. l ++ e ∷ []) (sym s))
          h',
    )

push_back-Gives :
    (e : ℕ) (r : Ring) (xs : List ℕ)
    → count e (root ∷ xs) ≡ 0
    → Represents r xs
    → Gives (push_back e r) (xs ++ e ∷ [])
unfolding push_back
push_back-Gives e r xs k h =
    let q = lazy_init r in
    let h' = lazy_init-IsRing r xs h in
    let (r', i, g) = insert-last e q xs k h' in
    gives (push_back e r) (xs ++ e ∷ []) (
      r',
      ap (λ o. elim o [ none ↦ none | some at ↦ insert e at q ])
            (prev-last q.next q.prev root xs root h'.linked)
          ∙ i,
      g,
    )

remove-Gives :
    (e : ℕ) (r : Ring) (xs : List ℕ) → Represents r xs → Gives (remove e r) (remove_from e xs)
unfolding remove zero_list remove_from
remove-Gives e r xs (inl (z, l)) =
    subst (λ q. Gives (remove e q) (remove_from e xs)) (sym z)
      (subst (λ l'. Gives (remove e zero_list) (remove_from e l')) (sym l) (inl (refl, refl)))
remove-Gives e r xs (inr h) =
    if-Both (λ o. Gives o (remove_from e xs)) (r.listed e) (unlink e (r.prev e) (r.next e) r)
      (some r)
      (λ l.
        let (ys, zs, s, k) = split e xs (present r xs e h l) in
        let (r', u, h') = unlink-element e ys zs r (subst (IsRing r) s h) in
        gives _ _
          (r', u, subst (IsRing r') (sym (ap (remove_from e) s ∙ remove_from-append e ys zs k)) h'))
      (λ l. inr (subst (IsRing r) (sym (remove_from-none e xs (missing r xs e h l))) h))

insert_after-Gives :
    (e mark : ℕ) (r : Ring) (xs : List ℕ)
    → count e (root ∷ xs) ≡ 0
    → Represents r xs
    → Gives (insert_after e mark r) (put_after mark e xs)
unfolding insert_after zero_list put_after
insert_after-Gives e mark r xs c (inl (z, l)) =
    subst (λ q. Gives (insert_after e mark q) (put_after mark e xs)) (sym z)
      (subst (λ l'. Gives (insert_after e mark zero_list) (put_after mark e l')) (sym l)
        (inl (refl, refl)))
insert_after-Gives e mark r xs c (inr h) =
    if-Both (λ o. Gives o (put_after mark e xs)) (r.listed mark) (insert e mark r) (some r)
      (λ l.
        let (ys, zs, s, k) = split mark xs (present r xs mark h l) in
        let (r', i, h') =
          insert-element e mark ys zs r (ap (λ l'. count e (root ∷ l')) (sym s) ∙ c)
            (subst (IsRing r) s h) in
        gives _ _ (
          r',
          i,
          subst (IsRing r') (sym (ap (put_after mark e) s ∙ put_after-append mark e ys zs k)) h',
        ))
      (λ l. inr (subst (IsRing r) (sym (put_after-none mark e xs (missing r xs mark h l))) h))

-- The move of an element behind another.
moved :
    (e mark : ℕ) (r : Ring) (xs : List ℕ)
    → IsRing r xs
    → count e xs ≡ 1
    → count mark xs ≡ 1
    → (e == mark) ≡ false
    → Gives
        (elim (unlink e (r.prev e) (r.next e) r) [ none ↦ none | some r' ↦ insert e mark r' ])
        (put_after mark e (remove_from e xs))
unfolding count
moved e mark r xs h c d n =
    let (ys, zs, s, k) = split e xs c in
    let (q, u, h') = unlink-element e ys zs r (subst (IsRing r) s h) in
    let out = ap (remove_from e) s ∙ remove_from-append e ys zs k in
    let there : count mark (ys ++ zs) ≡ 1 =
      ground
        (arith, n, d, ap (count mark) s, count-append mark ys (e ∷ zs), count-append mark ys zs) in
    let gone : count e (root ∷ ys ++ zs) ≡ 0 =
      ground
        (arith, k, c, h.once e, ap (count e) s, count-append e ys (e ∷ zs), count-append e ys zs) in
    let (us, vs, t, m) = split mark (ys ++ zs) there in
    let (r', i, h'') =
      insert-element e mark us vs q (ap (λ l. count e (root ∷ l)) (sym t) ∙ gone)
        (subst (IsRing q) t h') in
    gives _ _ (
      r',
      ap (λ o. elim o [ none ↦ none | some r' ↦ insert e mark r' ]) u ∙ i,
      subst (IsRing r') (sym (ap (put_after mark e) (out ∙ t) ∙ put_after-append mark e us vs m))
          h'',
    )

chosen :
    (b : Bool) (o o' : Option Ring) (xs xs' : List ℕ)
    → (b ≡ true → Gives o xs)
    → (b ≡ false → Gives o' xs')
    → Gives (if b then o else o') (if b then xs else xs')
chosen true o o' xs xs' h k = h refl
chosen false o o' xs xs' h k = k refl

move_after-Gives :
    (e mark : ℕ) (r : Ring) (xs : List ℕ)
    → Represents r xs
    → Gives (move_after e mark r) (list_step (moves_after e mark) xs)
unfolding move_after zero_list list_step count
move_after-Gives e mark r xs (inl (z, l)) =
    subst (λ q. Gives (move_after e mark q) (list_step (moves_after e mark) xs)) (sym z)
      (subst (λ l'. Gives (move_after e mark zero_list) (list_step (moves_after e mark) l')) (sym l)
        (inl (refl, refl)))
move_after-Gives e mark r xs (inr h) =
    let target = put_after mark e (remove_from e xs) in
    subst (λ b. Gives (move_after e mark r) (if b then target else xs))
      (ap (λ b. b && not (e == mark) && r.listed mark) (h.listed e)
        ∙ ap (λ b. (count e xs == 1) && not (e == mark) && b) (h.listed mark))
      (chosen (r.listed e && not (e == mark) && r.listed mark) _ (some r) target xs
        (λ t.
          moved e mark r xs h (present r xs e h (ground (arith, t)))
            (present r xs mark h (ground (arith, t))) (ground (arith, t)))
        (λ f. inr h))

step-Gives :
    (o : Operation) (r : Ring) (xs : List ℕ)
    → IsAllowed o xs
    → Represents r xs
    → Gives (step o r) (list_step o xs)
unfolding step list_step IsAllowed
step-Gives (pushes_front e) r xs a h = push_front-Gives e r xs a h
step-Gives (pushes_back e) r xs a h = push_back-Gives e r xs a h
step-Gives (removes e) r xs a h = remove-Gives e r xs h
step-Gives (inserts_after e mark) r xs a h = insert_after-Gives e mark r xs a h
step-Gives (moves_after e mark) r xs a h = move_after-Gives e mark r xs h

next :
    (o : Option Ring) (f : Ring → Option Ring) (xs ys : List ℕ)
    → Gives o xs
    → ((r : Ring) → Represents r xs → Gives (f r) ys)
    → Gives (elim o [ none ↦ none | some r ↦ f r ]) ys
next none f xs ys g h = absurd g
next (some r) f xs ys g h = h r g

run-Gives :
    (operations : List Operation) (r : Ring) (xs : List ℕ)
    → AllAllowed operations xs
    → Represents r xs
    → Gives (run operations r) (list_run operations xs)
unfolding run list_run AllAllowed
run-Gives [] r xs a h = h
run-Gives (o ∷ operations) r xs (a, later) h =
    next (step o r) (run operations) (list_step o xs) (list_run operations (list_step o xs))
      (step-Gives o r xs a h) (λ r' h'. run-Gives operations r' (list_step o xs) later h')

returned :
    (o : Option Ring) (xs : List ℕ) → Gives o xs → (r : Ring) × (o ≡ some r) × Represents r xs
returned none xs g = absurd g
returned (some r) xs g = (r, refl, g)

-- Any pushes, insertions, removals and moves, of which the pushes and insertions bring only
-- elements that are not in the list, return, and leave a ring that holds, from its root and in both
-- directions, the elements that the same operations leave in a list, each once, and their number.
pub run-list_run :
    (operations : List Operation)
    → AllAllowed operations []
    → (r : Ring) × (run operations zero_list ≡ some r)
      × (((r ≡ zero_list) × (list_run operations [] ≡ [])) ⊎ IsRing r (list_run operations []))
run-list_run operations a =
    returned (run operations zero_list) (list_run operations [])
      (run-Gives operations zero_list [] a (inl (refl, refl)))
