-- ===== src/Harvester/LineReader/Parts.antt =====
-- Where a line reader (lc-lib/harvester/linereader.go) ends a line, what it takes off the buffer,
-- and what it puts aside.
use log_courier.Common.{
  ℕ, zero, suc, ◌+◌, ◌-◌, ◌≤◌, ◌<◌, ◌≡◌, refl, sym, ap, ◌∙◌, subst, inl, inr, List, [], ◌∷◌, ◌++◌,
  none, some, length, take, drop, arith, leb, Bool-cases, append_assoc, Option-cases, append-nil,
  length-append, drop-drop, take-append-drop, leb→le,
}
use log_courier.Harvester.LineReader.{
  LineReader, window, flat, spill, advance, finish, finish_from, index_newline, newline_at,
}
use log_courier.Harvester.LineReader.Fill.{
  IsOneLine, IsOneLine-append, IsValid, held, length-make, length-window,
}

take-all : (n : ℕ) (xs : List ℕ) → length xs ≤ n → take n xs ≡ xs
take-all zero [] h = refl
take-all zero (x ∷ xs) h = absurd (omega arith)
take-all (suc n) [] h = refl
take-all (suc n) (x ∷ xs) h = ap (◌∷◌ x) (take-all n xs (omega arith))

take-nil : (n : ℕ) → take {A = ℕ} n [] ≡ []
take-nil zero = refl
take-nil (suc n) = refl

drop-take : (n m : ℕ) (xs : List ℕ) → drop n (take m xs) ≡ take (m - n) (drop n xs)
drop-take zero m xs = let e : m ≡ m - 0 = omega arith in ap (λ k. take k xs) e
drop-take (suc n) zero xs = let e : 0 - suc n ≡ 0 = omega arith in rw e
drop-take (suc n) (suc m) [] = sym (take-nil (suc m - suc n))
drop-take (suc n) (suc m) (x ∷ xs) =
    let e : suc m - suc n ≡ m - n = omega arith in rw e (drop-take n m xs)

IsOneLine-take : (m n : ℕ) (xs : List ℕ) → m ≤ n → IsOneLine (take n xs) → IsOneLine (take m xs)
IsOneLine-take zero n xs h k = tt
IsOneLine-take (suc m) zero xs h k = absurd (omega arith)
IsOneLine-take (suc m) (suc n) [] h k = tt
IsOneLine-take (suc m) (suc n) (x ∷ xs) h k = (k.0, IsOneLine-take m n xs (omega arith) k.1)

IsOneLine-take_all : (n : ℕ) (xs : List ℕ) → IsOneLine xs → IsOneLine (take n xs)
IsOneLine-take_all zero xs h = tt
IsOneLine-take_all (suc n) [] h = tt
IsOneLine-take_all (suc n) (x ∷ xs) h = (h.0, IsOneLine-take_all n xs h.1)

-- The first line feed, if there is one.
index_newline-none : (text : List ℕ) → index_newline text ≡ none → IsOneLine text
unfolding index_newline
index_newline-none [] e = tt
index_newline-none (b ∷ text) e = (ground arith, index_newline-none text (ground arith))

pub index_newline-some :
    (text : List ℕ) (n : ℕ)
    → index_newline text ≡ some n
    → (n < length text) × IsOneLine (take n text) × (take (n + 1) text ≡ take n text ++ b'\n' ∷ [])
unfolding index_newline
index_newline-some [] n e = cc
index_newline-some (b ∷ text) zero e =
    let feed : b ≡ b'\n' = ground arith in (omega arith, tt, ap (λ c. c ∷ []) feed)
index_newline-some (b ∷ text) (suc n) e =
    let (inside, one, ends) = index_newline-some text n (ground arith) in
    let next : suc n + 1 ≡ suc (n + 1) = omega arith in
    (omega arith, (ground arith, one), rw next (ap (◌∷◌ b) ends))

pub newline_at-some :
    (lr : LineReader) (n : ℕ)
    → newline_at lr ≡ some n
    → (index_newline (window lr) ≡ some n) × (n < lr.cur_max)
unfolding newline_at
newline_at-some lr n e = elim (Option-cases (index_newline (window lr))) [
  | inl absent ↦ ground arith
  | inr (m, found) ↦ (ground arith, ground arith)
]

-- Where no line feed is found in time, the part that may be returned is of one line.
pub newline_at-none :
    (lr : LineReader) → newline_at lr ≡ none → IsOneLine (take lr.cur_max (window lr))
unfolding newline_at
newline_at-none lr e = elim (Option-cases (index_newline (window lr))) [
  | inl absent ↦ IsOneLine-take_all lr.cur_max (window lr) (index_newline-none (window lr) absent)
  | inr (m, found) ↦
      IsOneLine-take lr.cur_max m (window lr) (ground arith)
        (index_newline-some (window lr) m found).1
]

flat-append : (xs ys : List (List ℕ)) → flat (xs ++ ys) ≡ flat xs ++ flat ys
unfolding flat
flat-append [] ys = refl
flat-append (x ∷ xs) ys = simp (flat-append xs ys, append_assoc)

flat-snoc : (xs : List (List ℕ)) (x : List ℕ) → flat (xs ++ x ∷ []) ≡ flat xs ++ x
flat-snoc xs x = flat-append xs (x ∷ []) ∙ ap (◌++◌ (flat xs)) (unfold flat in append-nil x)

window_full :
    (start end : ℕ) (buf : List ℕ)
    → 0 < length buf
    → end ≤ length buf
    → length buf ≤ end - start
    → take (end - start) (drop start buf) ≡ buf
window_full zero end buf h k l = take-all (end - 0) buf l
window_full (suc start) end buf h k l = absurd (omega arith)

-- A spilled buffer has room, and the reader still holds the same bytes.
pub record IsSpilled (lr lr' : LineReader) : Type 0 where
  pub valid : IsValid lr'
  pub space : lr'.end - lr'.start < lr'.size
  pub same_held : held lr' ≡ held lr
  pub same_line : lr'.max_line ≡ lr.max_line

pub spill-IsSpilled :
    (lr : LineReader)
    → IsValid lr
    → newline_at lr ≡ none
    → lr.end - lr.start < lr.cur_max
    → IsSpilled lr (spill lr)
unfolding spill
spill-IsSpilled lr v absent short = elim (Bool-cases (leb (length lr.buf) (lr.end - lr.start))) [
  | inr roomy ↦
      rw roomy
        (record { valid = v; space = ground (arith, v.sized); same_held = refl; same_line = refl })
  | inl full ↦
      let le : length lr.buf ≤ lr.end - lr.start = leb→le _ _ full in
      let all : window lr ≡ lr.buf =
        unfold window in
        window_full lr.start lr.end lr.buf (omega (arith, v.sized, v.room)) v.in_range le in
      let one : IsOneLine lr.buf =
        subst IsOneLine (take-all lr.cur_max (window lr) (omega (arith, length-window lr v)) ∙ all)
          (newline_at-none lr absent) in
      rw full (record {
        valid = record {
          ordered = omega arith;
          in_range = omega arith;
          sized = length-make lr.size;
          room = v.room;
          budget = omega (
            arith,
            ap length (flat-snoc lr.overflow lr.buf),
            length-append (flat lr.overflow) lr.buf,
            v.budget,
            v.sized,
          );
          left = omega (arith, v.sized);
          one_line =
              subst IsOneLine (sym (flat-snoc lr.overflow lr.buf))
                (IsOneLine-append (flat lr.overflow) lr.buf v.one_line one);
        };
        space = v.room;
        same_held =
            unfold held window in
            append-nil _ ∙ flat-snoc lr.overflow lr.buf ∙ ap (◌++◌ (flat lr.overflow)) (sym all);
        same_line = refl;
      })
]

-- The reader after `n` bytes of its window were returned behind what had overflowed.
abbrev pub taken : LineReader → ℕ → LineReader
taken lr n = record lr { start = lr.start + n; overflow = []; cur_max = lr.max_line }

finish_overflow :
    (lr : LineReader) (text : List ℕ) (overflow : List (List ℕ))
    → lr.overflow ≡ overflow
    → lr.cur_max + length (flat overflow) ≡ lr.max_line
    → finish_from overflow lr text
      ≡ (record lr { overflow = []; cur_max = lr.max_line }, flat overflow ++ text)
unfolding finish_from
finish_overflow lr text [] e b =
    let q : lr.cur_max ≡ lr.max_line = omega arith in
    λ i. (record lr { overflow = e i; cur_max = q i }, text)
finish_overflow lr text (chunk ∷ chunks) e b =
    ap (λ t. (record lr { overflow = []; cur_max = lr.max_line }, t))
      (flat-snoc (chunk ∷ chunks) text)

pub finish_lem :
    (lr : LineReader) (n : ℕ) (text : List ℕ)
    → IsValid lr
    → finish (advance lr n) text ≡ (taken lr n, flat lr.overflow ++ text)
unfolding finish advance
finish_lem lr n text v = finish_overflow (advance lr n) text lr.overflow refl v.budget

window-taken : (lr : LineReader) (n : ℕ) → window (taken lr n) ≡ drop n (window lr)
unfolding window
window-taken lr n =
    ap (λ k. take k (drop (lr.start + n) lr.buf)) (omega arith)
    ∙ ap (take (lr.end - lr.start - n)) (sym (drop-drop lr.start n (lr.start + n) lr.buf refl))
    ∙ sym (drop-take n (lr.end - lr.start) (drop lr.start lr.buf))

pub taken-IsValid :
    (lr : LineReader) (n : ℕ)
    → IsValid lr
    → n ≤ length (window lr)
    → IsValid (taken lr n)
      × ((flat lr.overflow ++ take n (window lr)) ++ held (taken lr n) ≡ held lr)
unfolding flat
taken-IsValid lr n v h = (
  record {
    ordered = omega (arith, length-window lr v);
    in_range = v.in_range;
    sized = v.sized;
    room = v.room;
    budget = omega arith;
    left = omega (arith, v.left, v.budget);
    one_line = tt;
  },
  unfold held in
      ap (λ w. (flat lr.overflow ++ take n (window lr)) ++ w) (window-taken lr n)
      ∙ append_assoc (flat lr.overflow) (take n (window lr)) (drop n (window lr))
      ∙ ap (◌++◌ (flat lr.overflow)) (take-append-drop n (window lr)),
)
