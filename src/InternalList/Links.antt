-- ===== src/InternalList/Links.antt =====
-- Runs of linked elements in the ring (lc-lib/internallist): cutting, joining and what a write leaves.
use log_courier.Common.{
  ℕ, ◌≤◌, ◌≡◌, ◌∙◌, false, List, [], ◌∷◌, ◌++◌, Option, some, arith, ◌==◌, if◌then◌else◌, count,
}

abbrev pub Next : Type 0
Next = ℕ → Option ℕ

-- From `a` over the elements to `b`, both ways.
abbrev pub Linked : Next → Next → ℕ → List ℕ → ℕ → Type 0
Linked n p a [] b = (n a ≡ some b) × (p b ≡ some a)
Linked n p a (x ∷ xs) b = (n a ≡ some x) × (p x ≡ some a) × Linked n p x xs b

pub cut :
    (n p : Next) (a : ℕ) (xs : List ℕ) (y : ℕ) (ys : List ℕ) (b : ℕ)
    → Linked n p a (xs ++ y ∷ ys) b
    → Linked n p a xs y × Linked n p y ys b
cut n p a [] y ys b (f, g, l) = ((f, g), l)
cut n p a (x ∷ xs) y ys b (f, g, l) = let (k, m) = cut n p x xs y ys b l in ((f, g, k), m)

pub joined :
    (n p : Next) (a : ℕ) (xs : List ℕ) (y : ℕ) (ys : List ℕ) (b : ℕ)
    → Linked n p a xs y
    → Linked n p y ys b
    → Linked n p a (xs ++ y ∷ ys) b
joined n p a [] y ys b (f, g) l = (f, g, l)
joined n p a (x ∷ xs) y ys b (f, g, k) l = (f, g, joined n p x xs y ys b k l)

-- The ring may be read from any of its elements.
pub turn :
    (n p : Next) (a : ℕ) (xs : List ℕ) (y : ℕ) (ys : List ℕ)
    → Linked n p a (xs ++ y ∷ ys) a
    → Linked n p y (ys ++ a ∷ xs) y
turn n p a xs y ys l = let (k, m) = cut n p a xs y ys a l in joined n p y ys a xs y m k

-- The element before the end.
abbrev pub last : ℕ → List ℕ → ℕ
last a [] = a
last a (x ∷ xs) = last x xs

pub count-last : (a : ℕ) (xs : List ℕ) → 1 ≤ count (last a xs) (a ∷ xs)
unfolding count
count-last a [] = ground arith
count-last a (x ∷ xs) = ground (arith, count-last x xs)

pub prev-last :
    (n p : Next) (a : ℕ) (xs : List ℕ) (b : ℕ) → Linked n p a xs b → p b ≡ some (last a xs)
prev-last n p a [] b (f, g) = g
prev-last n p a (x ∷ xs) b (f, g, l) = prev-last n p x xs b l

abbrev pub write : ℕ → Option ℕ → Next → Next
write e v f x = if e == x then v else f x

pub write-same : (e : ℕ) (v : Option ℕ) (f : Next) → write e v f e ≡ v
write-same e v f = ground arith

pub write-other : (e x : ℕ) (v : Option ℕ) (f : Next) → (e == x) ≡ false → write e v f x ≡ f x
write-other e x v f h = ground arith

-- What a run reads.
pub same-Linked :
    (n p n' p' : Next) (a : ℕ) (xs : List ℕ) (b : ℕ)
    → ((x : ℕ) → 1 ≤ count x (a ∷ xs) → n' x ≡ n x)
    → ((x : ℕ) → 1 ≤ count x (xs ++ b ∷ []) → p' x ≡ p x)
    → Linked n p a xs b
    → Linked n' p' a xs b
unfolding count
same-Linked n p n' p' a [] b h k (f, g) = (h a (ground arith) ∙ f, k b (ground arith) ∙ g)
same-Linked n p n' p' a (x ∷ xs) b h k (f, g, l) = (
  h a (ground arith) ∙ f,
  k x (ground arith) ∙ g,
  same-Linked n p n' p' x xs b (λ y c. h y (ground (arith, c))) (λ y c. k y (ground (arith, c))) l,
)

-- The end of a run is set to another element.
pub bent :
    (n p : Next) (a : ℕ) (xs : List ℕ) (b c : ℕ)
    → ((x : ℕ) → count x (a ∷ xs) ≤ 1)
    → count c xs ≡ 0
    → Linked n p a xs b
    → Linked (write (last a xs) (some c) n) (write c (some (last a xs)) p) a xs c
unfolding count
bent n p a [] b c d k (f, g) = (write-same a (some c) n, write-same c (some a) p)
bent n p a (x ∷ xs) b c d k (f, g, l) = (
  write-other (last x xs) a (some c) n (ground (arith, count-last x xs, d (last x xs), d a)) ∙ f,
  write-other c x (some (last x xs)) p (ground (arith, k)) ∙ g,
  bent n p x xs b c (λ y. ground (arith, d y)) (ground (arith, k)) l,
)
