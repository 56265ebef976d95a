-- ===== src/InternalList/Operations.antt =====
-- The operations on the ring of lc-lib/internallist, and what they are to do to the list of its
-- elements.
use log_courier.Common.{
  ℕ, ◌≡◌, refl, ap, inl, inr, not, ◌&&◌, Bool-cases, List, [], ◌∷◌, ◌++◌, Option, none, some, arith,
  ◌==◌, ==_lem, if◌then◌else◌, count,
}
use log_courier.InternalList.{Ring, root, remove, push_front, push_back, insert_after, move_after}
use log_courier.Endpoint.{remove as remove_from}

unfoldable pub put_after : (mark e : ℕ) → List ℕ → List ℕ
put_after mark e [] = []
put_after mark e (x ∷ xs) = if x == mark then x ∷ e ∷ xs else x ∷ put_after mark e xs

pub data Operation : Type 0 where
  pushes_front pushes_back removes : ℕ → Operation
  inserts_after moves_after : (e mark : ℕ) → Operation

unfoldable pub step : Operation → Ring → Option Ring
unfolding push_front push_back remove insert_after move_after
step (pushes_front e) r = push_front e r
step (pushes_back e) r = push_back e r
step (removes e) r = remove e r
step (inserts_after e mark) r = insert_after e mark r
step (moves_after e mark) r = move_after e mark r

-- What the operations are to do to the list of the elements.
unfoldable pub list_step : Operation → List ℕ → List ℕ
unfolding put_after remove_from count
list_step (pushes_front e) xs = e ∷ xs
list_step (pushes_back e) xs = xs ++ e ∷ []
list_step (removes e) xs = remove_from e xs
list_step (inserts_after e mark) xs = put_after mark e xs
list_step (moves_after e mark) xs =
    if (count e xs == 1) && not (e == mark) && (count mark xs == 1)
    then put_after mark e (remove_from e xs)
    else xs

-- An element that is inserted is neither the root nor in the list.
unfoldable pub IsAllowed : Operation → List ℕ → Type 0
unfolding count
IsAllowed (pushes_front e) xs = count e (root ∷ xs) ≡ 0
IsAllowed (pushes_back e) xs = count e (root ∷ xs) ≡ 0
IsAllowed (inserts_after e mark) xs = count e (root ∷ xs) ≡ 0
IsAllowed _ xs = Unit

-- Where an element stands.
pub split :
    (e : ℕ) (xs : List ℕ)
    → count e xs ≡ 1
    → (ys : List ℕ) × (zs : List ℕ) × (xs ≡ ys ++ e ∷ zs) × (count e ys ≡ 0)
unfolding count
split e [] c = absurd (omega (arith, c))
split e (x ∷ xs) c = elim (Bool-cases (x == e)) [
  | inl s ↦ ([], xs, ap (λ y. y ∷ xs) (==_lem x e s), refl)
  | inr d ↦
      (let (ys, zs, q, k) = split e xs (ground (arith, c, d)) in
        (x ∷ ys, zs, ap (λ l. x ∷ l) q, ground (arith, k, d)))
]

pub remove_from-append :
    (e : ℕ) (ys zs : List ℕ) → count e ys ≡ 0 → remove_from e (ys ++ e ∷ zs) ≡ ys ++ zs
unfolding remove_from count
remove_from-append e [] zs k = ground arith
remove_from-append e (y ∷ ys) zs k = ground (arith, k, remove_from-append e ys zs)

pub put_after-append :
    (mark e : ℕ) (ys zs : List ℕ)
    → count mark ys ≡ 0
    → put_after mark e (ys ++ mark ∷ zs) ≡ ys ++ mark ∷ e ∷ zs
unfolding put_after count
put_after-append mark e [] zs k = ground arith
put_after-append mark e (y ∷ ys) zs k = ground (arith, k, put_after-append mark e ys zs)

pub put_after-none : (mark e : ℕ) (xs : List ℕ) → count mark xs ≡ 0 → put_after mark e xs ≡ xs
unfolding put_after count
put_after-none mark e [] k = refl
put_after-none mark e (x ∷ xs) k = ground (arith, k, put_after-none mark e xs)

pub remove_from-none : (e : ℕ) (xs : List ℕ) → count e xs ≡ 0 → remove_from e xs ≡ xs
unfolding remove_from count
remove_from-none e [] k = refl
remove_from-none e (x ∷ xs) k = ground (arith, k, remove_from-none e xs)

unfoldable pub run : List Operation → Ring → Option Ring
unfolding step
run [] r = some r
run (o ∷ operations) r = elim (step o r) [ none ↦ none | some r' ↦ run operations r' ]

unfoldable pub list_run : List Operation → List ℕ → List ℕ
unfolding list_step
list_run [] xs = xs
list_run (o ∷ operations) xs = list_run operations (list_step o xs)

unfoldable pub AllAllowed : List Operation → List ℕ → Type 0
unfolding IsAllowed list_step
AllAllowed [] xs = Unit
AllAllowed (o ∷ operations) xs = IsAllowed o xs × AllAllowed operations (list_step o xs)
