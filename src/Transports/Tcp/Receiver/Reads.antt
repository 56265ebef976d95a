-- ===== src/Transports/Tcp/Receiver/Reads.antt =====
-- `receiverRead` of lc-lib/transports/tcp/tcp.go gets the bytes of the stream, however they arrive.
use log_courier.Common.{
  ℕ, zero, suc, ◌+◌, ◌-◌, ◌≤◌, ◌<◌, ◌≡◌, refl, sym, ap, ◌∙◌, inl, inr, true, false, Bool-cases,
  List, [], ◌∷◌, ◌++◌, length, take, drop, leb, leb→le, arith, length-append, length-take,
  length-drop, take-append-drop, take-append_length, drop-append_length, append_assoc,
}
use log_courier.Transports.Tcp.Receiver.{
  Arrival, arrived, timed_out, broken, stop, full, waiting, read_loop, contents,
}

-- No error and no shutdown.
abbrev pub IsOpen : List Arrival → Type 0
IsOpen [] = Unit {0}
IsOpen (arrived bytes ∷ arrivals) = IsOpen arrivals
IsOpen (timed_out ∷ arrivals) = IsOpen arrivals
IsOpen (_ ∷ arrivals) = ⊥

take-append_le : (n : ℕ) (xs ys : List ℕ) → n ≤ length xs → take n (xs ++ ys) ≡ take n xs
take-append_le zero xs ys h = refl
take-append_le (suc n) [] ys h = absurd (omega arith)
take-append_le (suc n) (x ∷ xs) ys h = ap (◌∷◌ x) (take-append_le n xs ys (omega arith))

drop-append_le : (n : ℕ) (xs ys : List ℕ) → n ≤ length xs → drop n (xs ++ ys) ≡ drop n xs ++ ys
drop-append_le zero xs ys h = refl
drop-append_le (suc n) [] ys h = absurd (omega arith)
drop-append_le (suc n) (x ∷ xs) ys h = drop-append_le n xs ys (omega arith)

read_loop_more :
    (needed : ℕ) (got new : List ℕ) (arrivals : List Arrival)
    → leb (needed - length got) (length new) ≡ false
    → read_loop needed got (arrived new ∷ arrivals) ≡ read_loop needed (got ++ new) arrivals
unfolding read_loop
read_loop_more needed got new arrivals h = rw (h, read_loop) refl

read_loop_done :
    (needed room : ℕ) (got new : List ℕ) (arrivals : List Arrival)
    → needed - length got ≡ room
    → leb room (length new) ≡ true
    → read_loop needed got (arrived new ∷ arrivals)
      ≡ full (got ++ take room new) (arrived (drop room new) ∷ arrivals)
unfolding read_loop
read_loop_done needed room got new arrivals e h = rw e (rw (h, read_loop) refl)

-- A read that completes takes the bytes that it needs off what arrives.
pub read_loop-contents :
    (needed : ℕ) (got : List ℕ) (arrivals : List Arrival) (bytes : List ℕ) (left : List Arrival)
    → length got < needed
    → read_loop needed got arrivals ≡ full bytes left
    → (bytes ++ contents left ≡ got ++ contents arrivals) × (length bytes ≡ needed)
unfolding read_loop contents
read_loop-contents needed got [] bytes left h e = cc
read_loop-contents needed got (stop ∷ arrivals) bytes left h e = cc
read_loop-contents needed got (broken ∷ arrivals) bytes left h e = cc
read_loop-contents needed got (timed_out ∷ arrivals) bytes left h e =
    read_loop-contents needed got arrivals bytes left h e
read_loop-contents needed got (arrived new ∷ arrivals) bytes left h e =
    let room = needed - length got in
    elim (Bool-cases (leb room (length new))) [
      | inr short ↦
          let (r, l) =
            read_loop-contents needed (got ++ new) arrivals bytes left
              (ground (arith, length-append got new))
              (sym (read_loop_more needed got new arrivals short) ∙ e) in
          (r ∙ append_assoc got new (contents arrivals), l)
      | inl enough ↦
          let q = sym e ∙ read_loop_done needed room got new arrivals refl enough in
          let b : bytes ≡ got ++ take room new = cc in
          let r : left ≡ arrived (drop room new) ∷ arrivals = cc in
          (
            ap (λ x. bytes ++ contents x) r
                ∙ ap (λ x. x ++ (drop room new ++ contents arrivals)) b
                ∙ append_assoc got (take room new) (drop room new ++ contents arrivals)
                ∙ ap (◌++◌ got) (
                    sym (append_assoc (take room new) (drop room new) (contents arrivals))
                    ∙ ap (λ x. x ++ contents arrivals) (take-append-drop room new)),
            ap length b
                ∙ omega (
                  arith,
                  length-append got (take room new),
                  length-take room new,
                  leb→le _ _ enough,
                ),
          )
    ]

pub read_loop-full :
    (needed : ℕ) (got : List ℕ) (arrivals : List Arrival) (bytes rest : List ℕ)
    → IsOpen arrivals
    → contents arrivals ≡ bytes ++ rest
    → length got + length bytes ≡ needed
    → 0 < length bytes
    → (left : List Arrival) × (read_loop needed got arrivals ≡ full (got ++ bytes) left)
      × IsOpen left
      × (contents left ≡ rest)
unfolding read_loop contents
read_loop-full needed got [] (b ∷ bytes) rest o e l h = cc
read_loop-full needed got [] [] rest o e l h = absurd (omega arith)
read_loop-full needed got (stop ∷ arrivals) bytes rest o e l h = elim o [ ]
read_loop-full needed got (broken ∷ arrivals) bytes rest o e l h = elim o [ ]
read_loop-full needed got (timed_out ∷ arrivals) bytes rest o e l h =
    read_loop-full needed got arrivals bytes rest o e l h
read_loop-full needed got (arrived new ∷ arrivals) bytes rest o e l h =
    let room : needed - length got ≡ length bytes = omega arith in
    elim (Bool-cases (leb (length bytes) (length new))) [
      | inl enough ↦
          let le = leb→le _ _ enough in
          let t : take (length bytes) new ≡ bytes =
            sym (take-append_le (length bytes) new (contents arrivals) le)
            ∙ ap (take (length bytes)) e
            ∙ take-append_length bytes rest in
          let d : drop (length bytes) new ++ contents arrivals ≡ rest =
            sym (drop-append_le (length bytes) new (contents arrivals) le)
            ∙ ap (drop (length bytes)) e
            ∙ drop-append_length bytes rest in
          (
            arrived (drop (length bytes) new) ∷ arrivals,
            read_loop_done needed (length bytes) got new arrivals room enough
                ∙ ap (λ x. full (got ++ x) (arrived (drop (length bytes) new) ∷ arrivals)) t,
            o,
            d,
          )
      | inr short ↦
          let le : length new < length bytes = ground arith in
          let more = drop (length new) bytes in
          let t : take (length new) bytes ≡ new =
            sym (take-append_le (length new) bytes rest (omega arith))
            ∙ ap (take (length new)) (sym e)
            ∙ take-append_length new (contents arrivals) in
          let split : new ++ more ≡ bytes =
            ap (λ x. x ++ more) (sym t) ∙ take-append-drop (length new) bytes in
          let d : contents arrivals ≡ more ++ rest =
            sym (drop-append_length new (contents arrivals))
            ∙ ap (drop (length new)) e
            ∙ drop-append_le (length new) bytes rest (omega arith) in
          let (left, q, open_left, r) =
            read_loop-full needed (got ++ new) arrivals more rest o d
              (omega (arith, length-append got new, length-drop (length new) bytes))
              (omega (arith, length-drop (length new) bytes)) in
          (
            left,
            read_loop_more needed got new arrivals (ap (λ k. leb k (length new)) room ∙ short)
                ∙ q
                ∙ ap (λ x. full x left) (append_assoc got new more ∙ ap (◌++◌ got) split),
            open_left,
            r,
          )
    ]

-- A read for which too little arrives waits.
pub read_loop-waiting :
    (needed : ℕ) (got : List ℕ) (arrivals : List Arrival)
    → IsOpen arrivals
    → length got + length (contents arrivals) < needed
    → read_loop needed got arrivals ≡ waiting
unfolding read_loop contents
read_loop-waiting needed got [] o h = refl
read_loop-waiting needed got (stop ∷ arrivals) o h = elim o [ ]
read_loop-waiting needed got (broken ∷ arrivals) o h = elim o [ ]
read_loop-waiting needed got (timed_out ∷ arrivals) o h = read_loop-waiting needed got arrivals o h
read_loop-waiting needed got (arrived new ∷ arrivals) o h =
    let l = length-append new (contents arrivals) in
    let short : leb (needed - length got) (length new) ≡ false = ground arith in
    rw (short, read_loop)
      (read_loop-waiting needed (got ++ new) arrivals o (omega (arith, length-append got new)))
