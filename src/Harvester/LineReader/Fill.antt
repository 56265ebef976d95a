-- ===== src/Harvester/LineReader/Fill.antt =====
-- The buffer of a line reader (lc-lib/harvester/linereader.go): its bounds, and what moving,
-- reading and spilling do to the bytes that it holds.
use log_courier.Common.{
  ℕ, zero, suc, ◌+◌, ◌-◌, ◌≤◌, ◌<◌, ◌≡◌, ◌≢◌, refl, sym, ap, ◌∙◌, inl, inr, List, [], ◌∷◌, ◌++◌,
  none, length, take, drop, arith, ◌==◌, Bool-cases, append_assoc, length-append, length-take,
  length-drop, take-append_length,
}
use log_courier.Harvester.LineReader.Input.{Reader}
use log_courier.Harvester.LineReader.{LineReader, make, window, flat, shift, put, fill}

-- No byte of the text is a line feed.
abbrev pub IsOneLine : List ℕ → Type 0
IsOneLine [] = Unit {0}
IsOneLine (b ∷ text) = (b ≢ b'\n') × IsOneLine text

pub IsOneLine-append : (xs ys : List ℕ) → IsOneLine xs → IsOneLine ys → IsOneLine (xs ++ ys)
IsOneLine-append [] ys h k = k
IsOneLine-append (x ∷ xs) ys h k = (h.0, IsOneLine-append xs ys h.1 k)

-- The window lies in the buffer, and what overflowed is part of one line, shorter than the limit.
pub record IsValid (lr : LineReader) : Type 0 where
  pub ordered : lr.start ≤ lr.end
  pub in_range : lr.end ≤ length lr.buf
  pub sized : length lr.buf ≡ lr.size
  pub room : 0 < lr.size
  pub budget : lr.cur_max + length (flat lr.overflow) ≡ lr.max_line
  pub left : 0 < lr.cur_max
  pub one_line : IsOneLine (flat lr.overflow)

-- The bytes that were read and not yet returned.
unfoldable pub held : LineReader → List ℕ
held lr = flat lr.overflow ++ window lr

pub length-make : (n : ℕ) → length (make n) ≡ n
length-make zero = refl
length-make (suc n) = ap suc (length-make n)

take-append : (xs ys : List ℕ) (n : ℕ) → n ≡ length xs → take n (xs ++ ys) ≡ xs
take-append xs ys n e = rw e (take-append_length xs ys)

pub length-window : (lr : LineReader) → IsValid lr → length (window lr) ≡ lr.end - lr.start
unfolding window
length-window lr v = omega (
  arith,
  length-take (lr.end - lr.start) (drop lr.start lr.buf),
  length-drop lr.start lr.buf,
  v.ordered,
  v.in_range,
)

window_at_front :
    (start end : ℕ) (buf : List ℕ) → start ≡ 0 → take end buf ≡ take (end - start) (drop start buf)
window_at_front zero end buf e = let q : end ≡ end - 0 = omega arith in ap (λ n. take n buf) q
window_at_front (suc start) end buf e = absurd (omega arith)

length-shifted :
    (lr : LineReader)
    → IsValid lr
    → length (window lr ++ drop (lr.end - lr.start) lr.buf) ≡ length lr.buf
length-shifted lr v = omega (
  arith,
  length-append (window lr) (drop (lr.end - lr.start) lr.buf),
  length-window lr v,
  length-drop (lr.end - lr.start) lr.buf,
  v.ordered,
  v.in_range,
)

-- The buffer with its window at the front.
record IsShifted (lr lr' : LineReader) : Type 0 where
  valid : IsValid lr'
  at_front : lr'.start ≡ 0
  same_end : lr'.end ≡ lr.end - lr.start
  same_window : take lr'.end lr'.buf ≡ window lr
  same_overflow : lr'.overflow ≡ lr.overflow
  same_max : lr'.cur_max ≡ lr.cur_max
  same_line : lr'.max_line ≡ lr.max_line
  same_size : lr'.size ≡ lr.size

shift-IsShifted : (lr : LineReader) → IsValid lr → IsShifted lr (shift lr)
unfolding shift
shift-IsShifted lr v = elim (Bool-cases (lr.start == 0)) [
  | inl at_zero ↦ rw at_zero (record {
    valid = v;
    at_front = ground arith;
    same_end = ground arith;
    same_window = window_at_front lr.start lr.end lr.buf (ground arith);
    same_overflow = refl;
    same_max = refl;
    same_line = refl;
    same_size = refl;
  })
  | inr moved ↦ rw moved (record {
    valid = record {
      ordered = omega arith;
      in_range = omega (arith, length-shifted lr v, v.in_range);
      sized = length-shifted lr v ∙ v.sized;
      room = v.room;
      budget = v.budget;
      left = v.left;
      one_line = v.one_line;
    };
    at_front = refl;
    same_end = refl;
    same_window = take-append (window lr) _ _ (sym (length-window lr v));
    same_overflow = refl;
    same_max = refl;
    same_line = refl;
    same_size = refl;
  })
]

length-put :
    (buf bytes : List ℕ) (end : ℕ)
    → end + length bytes ≤ length buf
    → length (take end buf ++ (bytes ++ drop (end + length bytes) buf)) ≡ length buf
length-put buf bytes end h = omega (
  arith,
  length-append (take end buf) (bytes ++ drop (end + length bytes) buf),
  length-append bytes (drop (end + length bytes) buf),
  length-take end buf,
  length-drop (end + length bytes) buf,
)

take-put :
    (buf bytes : List ℕ) (end : ℕ)
    → end ≤ length buf
    → take (end + length bytes) (take end buf ++ (bytes ++ drop (end + length bytes) buf))
      ≡ take end buf ++ bytes
take-put buf bytes end h =
    ap (take (end + length bytes)) (sym (append_assoc (take end buf) bytes _))
    ∙ take-append (take end buf ++ bytes) _ _
        (omega (arith, length-append (take end buf) bytes, length-take end buf))

-- A read at the end of the window, after the buffer was shifted.
pub record IsFilled (lr lr' : LineReader) (bytes : List ℕ) : Type 0 where
  pub valid : IsValid lr'
  pub window_grows : window lr' ≡ window lr ++ bytes
  pub held_grows : held lr' ≡ held lr ++ bytes
  pub same_line : lr'.max_line ≡ lr.max_line
  pub same_size : lr'.size ≡ lr.size

put-IsFilled :
    (lr lr₁ : LineReader) (bytes : List ℕ)
    → IsShifted lr lr₁
    → length bytes ≤ length lr₁.buf - lr₁.end
    → IsFilled lr (put lr₁ bytes) bytes
unfolding put
put-IsFilled lr lr₁ bytes s fits = record {
  valid = record {
    ordered = omega (arith, s.at_front);
    in_range = omega (arith, length-put lr₁.buf bytes lr₁.end, s.valid.in_range);
    sized = length-put lr₁.buf bytes lr₁.end (omega (arith, s.valid.in_range)) ∙ s.valid.sized;
    room = s.valid.room;
    budget = s.valid.budget;
    left = s.valid.left;
    one_line = s.valid.one_line;
  };
  window_grows = grown;
  held_grows =
      unfold held in
      ap (◌++◌ (flat lr₁.overflow)) grown
      ∙ rw s.same_overflow (sym (append_assoc (flat lr.overflow) (window lr) bytes));
  same_line = s.same_line;
  same_size = s.same_size;
}
  where
    grown : window (put lr₁ bytes) ≡ window lr ++ bytes
    grown =
        unfold window in
        sym (window_at_front lr₁.start (lr₁.end + length bytes) _ s.at_front)
        ∙ take-put lr₁.buf bytes lr₁.end s.valid.in_range
        ∙ ap (λ w. w ++ bytes) s.same_window

module _ (r : Reader) where
  open r use {State, read, rest, read_le, read_rest, read_progress}

  -- A fill of a buffer that is not full takes the next bytes of the stream behind those it holds,
  -- and at least one if it reports no error.
  pub fill-IsFilled :
      (lr : LineReader) (s : State)
      → IsValid lr
      → lr.end - lr.start < lr.size
      → (bytes : List ℕ) × IsFilled lr (fill r lr s).0 bytes
        × (rest s ≡ bytes ++ rest (fill r lr s).1)
        × ((fill r lr s).2 ≡ none → 0 < length bytes)
  unfolding fill
  fill-IsFilled lr s v space =
      let sh = shift-IsShifted lr v in
      let lr₁ = shift lr in
      let n = length lr₁.buf - lr₁.end in
      (
        (read s n).1,
        put-IsFilled lr lr₁ (read s n).1 sh (read_le s n),
        read_rest s n,
        read_progress s n (omega (arith, sh.same_end, sh.same_size, sh.valid.sized)),
      )
