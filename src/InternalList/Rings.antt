-- ===== src/InternalList/Rings.antt =====
-- The operations of lc-lib/internallist on the ring do what they say on the list of its elements.
use log_courier.Common.{
  ℕ, suc, ◌-◌, ◌≤◌, ◌≡◌, sym, ap, ◌∙◌, subst, true, false, List, [], ◌∷◌, ◌++◌, append-nil, none,
  some, arith, ◌==◌, if◌then◌else◌, count, count-append, length, length-append,
}
use log_courier.InternalList.{Ring, root, set_next, set_prev, set_listed, link, insert, unlink}
use log_courier.InternalList.Links.{
  Next, Linked, turn, last, prev-last, write, write-other, same-Linked, bent,
}

-- A ring that holds the elements of a list, in their order.
pub record IsRing (r : Ring) (xs : List ℕ) : Type 0 where
  pub linked : Linked r.next r.prev root xs root
  pub once : (e : ℕ) → count e (root ∷ xs) ≤ 1
  pub listed : (e : ℕ) → r.listed e ≡ (count e xs == 1)
  pub len : r.len ≡ length xs

abbrev first : List ℕ → ℕ → ℕ
first [] a = a
first (x ∷ xs) a = x

pub next-first :
    (n p : Next) (a : ℕ) (xs : List ℕ) (b : ℕ) → Linked n p a xs b → n a ≡ some (first xs b)
next-first n p a [] b (f, g) = f
next-first n p a (x ∷ xs) b (f, g, l) = f

-- A new element behind the one from which the ring is read.
insert-turned :
    (n p : Next) (a e : ℕ) (xs : List ℕ)
    → ((x : ℕ) → count x (a ∷ xs) ≤ 1)
    → count e (a ∷ xs) ≡ 0
    → Linked n p a xs a
    → Linked
        (write e (some (first xs a)) (write a (some e) n))
        (write (first xs a) (some e) (write e (some a) p))
        a
        (e ∷ xs)
        a
unfolding count
insert-turned n p a e [] d k (f, g) =
    (ground (arith, k), ground (arith, k), (ground (arith, k), ground (arith, k)))
insert-turned n p a e (x ∷ xs) d k (f, g, l) = (
  ground (arith, k),
  ground (arith, k),
  (
    ground (arith, k),
    ground (arith, k),
    same-Linked n p _ _ x xs a (λ y c. ground (arith, c, k, d y, d a))
        (λ y c. ground (arith, c, k, d y, d x, count-append y xs (a ∷ []))) l,
  ),
)

-- `insert` behind an element whose successor is known.
abbrev inserted : (e at n : ℕ) → Ring → Ring
inserted e at n r = record {
  next = write e (some n) (write at (some e) r.next);
  prev = write n (some e) (write e (some at) r.prev);
  listed = λ x. if e == x then true else r.listed x;
  len = suc r.len;
}

insert-some :
    (e at n : ℕ) (r : Ring) → r.next at ≡ some n → insert e at r ≡ some (inserted e at n r)
unfolding insert link set_next set_prev set_listed
insert-some e at n r h = ap (λ o. link e at o r) h

-- A new element at the front.
pub insert-root :
    (e : ℕ) (xs : List ℕ) (r : Ring)
    → count e (root ∷ xs) ≡ 0
    → IsRing r xs
    → (r' : Ring) × (insert e root r ≡ some r') × IsRing r' (e ∷ xs)
unfolding count
insert-root e xs r k h =
    let z = first xs root in
    (
      inserted e root z r,
      insert-some e root z r (next-first r.next r.prev root xs root h.linked),
      record {
        linked = insert-turned r.next r.prev root e xs h.once k h.linked;
        once = λ x. ground (arith, h.once x, k);
        listed = λ x. ground (arith, h.listed x, h.once x, k);
        len = ap suc h.len;
      },
    )

-- A new element behind an element.
pub insert-element :
    (e at : ℕ) (ys zs : List ℕ) (r : Ring)
    → count e (root ∷ ys ++ at ∷ zs) ≡ 0
    → IsRing r (ys ++ at ∷ zs)
    → (r' : Ring) × (insert e at r ≡ some r') × IsRing r' (ys ++ at ∷ e ∷ zs)
unfolding count
insert-element e at ys zs r k h =
    let turned = turn r.next r.prev root ys at zs h.linked in
    let around = zs ++ root ∷ ys in
    let z = first around at in
    let counts = λ (x : ℕ). count-append x ys (at ∷ zs) in
    let counts' = λ (x : ℕ). count-append x zs (root ∷ ys) in
    let after = λ (x : ℕ). count-append x ys (at ∷ e ∷ zs) in
    (
      inserted e at z r,
      insert-some e at z r (next-first r.next r.prev at around at turned),
      record {
        linked = turn _ _ at (e ∷ zs) root ys (
            insert-turned r.next r.prev at e around
              (λ x. ground (arith, h.once x, counts x, counts' x))
              (ground (arith, k, counts e, counts' e)) turned);
        once = λ x. ground (arith, h.once x, k, counts x, after x);
        listed = λ x. ground (arith, h.listed x, h.once x, k, counts x, after x);
        len = omega (arith, h.len, length-append ys (at ∷ zs), length-append ys (at ∷ e ∷ zs));
      },
    )

-- `remove` where both neighbours are known.
abbrev unlinked : (e p n : ℕ) → Ring → Ring
unlinked e p n r = record {
  next = write e none (write p (some n) r.next);
  prev = write e none (write n (some p) r.prev);
  listed = λ x. if e == x then false else r.listed x;
  len = r.len - 1;
}

unlink-some :
    (e p n : ℕ) (r : Ring)
    → r.next e ≡ some n
    → r.prev e ≡ some p
    → unlink e (r.prev e) (r.next e) r ≡ some (unlinked e p n r)
unfolding unlink set_next set_prev set_listed
unlink-some e p n r h k = ap (λ o. unlink e o (r.next e) r) k ∙ ap (λ o. unlink e (some p) o r) h

-- The ring without the element from which it was read.
unlink-turned :
    (n p : Next) (e w : ℕ) (ws : List ℕ)
    → ((x : ℕ) → count x (e ∷ w ∷ ws) ≤ 1)
    → Linked n p e (w ∷ ws) e
    → Linked
        (write e none (write (last w ws) (some w) n))
        (write e none (write w (some (last w ws)) p))
        w
        ws
        w
unfolding count
unlink-turned n p e w ws d (f, g, l) =
    same-Linked (write (last w ws) (some w) n) (write w (some (last w ws)) p) _ _ w ws w
      (λ x c. write-other e x none (write (last w ws) (some w) n) (ground (arith, c, d x)))
      (λ x c.
        write-other e x none (write w (some (last w ws)) p)
          (ground (arith, c, d x, count-append x ws (w ∷ []))))
      (bent n p w ws e w (λ x. ground (arith, d x)) (ground (arith, d w)) l)

-- An element leaves the list.
pub unlink-element :
    (e : ℕ) (ys zs : List ℕ) (r : Ring)
    → IsRing r (ys ++ e ∷ zs)
    → (r' : Ring) × (unlink e (r.prev e) (r.next e) r ≡ some r') × IsRing r' (ys ++ zs)
unfolding count
unlink-element e ys [] r h =
    let turned = turn r.next r.prev root ys e [] h.linked in
    let counts = λ (x : ℕ). count-append x ys (e ∷ []) in
    (
      unlinked e (last root ys) root r,
      unlink-some e (last root ys) root r turned.0 (prev-last r.next r.prev e (root ∷ ys) e turned),
      subst (IsRing _) (sym (append-nil ys)) (record {
        linked =
            unlink-turned r.next r.prev e root ys (λ x. ground (arith, h.once x, counts x)) turned;
        once = λ x. ground (arith, h.once x, counts x);
        listed = λ x. ground (arith, h.listed x, h.once x, counts x);
        len = omega (arith, h.len, length-append ys (e ∷ []));
      }),
    )
unlink-element e ys (z ∷ zs) r h =
    let turned = turn r.next r.prev root ys e (z ∷ zs) h.linked in
    let around = zs ++ root ∷ ys in
    let counts = λ (x : ℕ). count-append x ys (e ∷ z ∷ zs) in
    let counts' = λ (x : ℕ). count-append x zs (root ∷ ys) in
    let after = λ (x : ℕ). count-append x ys (z ∷ zs) in
    (
      unlinked e (last z around) z r,
      unlink-some e (last z around) z r turned.0 (prev-last r.next r.prev e (z ∷ around) e turned),
      record {
        linked = turn _ _ z zs root ys (
            unlink-turned r.next r.prev e z around
              (λ x. ground (arith, h.once x, counts x, counts' x)) turned);
        once = λ x. ground (arith, h.once x, counts x, after x);
        listed = λ x. ground (arith, h.listed x, h.once x, counts x, after x);
        len = omega (arith, h.len, length-append ys (e ∷ z ∷ zs), length-append ys (z ∷ zs));
      },
    )
