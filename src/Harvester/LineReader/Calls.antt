-- ===== src/Harvester/LineReader/Calls.antt =====
-- Repeated calls of `ReadSlice`, and `Reset` (lc-lib/harvester/linereader.go).
use log_courier.Common.{
  ℕ, zero, suc, ◌+◌, ◌<◌, ◌≡◌, refl, sym, ap, ◌∙◌, subst, List, [], ◌∷◌, ◌++◌, Option, none, some,
  length, arith, append_assoc, append-nil,
}
use log_courier.Harvester.LineReader.Input.{Reader}
use log_courier.Harvester.LineReader.{
  LineReader, ReadResult, window, flat, read_slice, new_line_reader, reset,
}
use log_courier.Harvester.LineReader.Fill.{IsValid, held, length-make}
use log_courier.Harvester.LineReader.Lines.{bytes_of, IsGood, read_slice-Reads}

abbrev pub all_bytes : List ReadResult → List ℕ
all_bytes [] = []
all_bytes (res ∷ results) = bytes_of res ++ all_bytes results

abbrev pub AllGood : ℕ → List ReadResult → Type 0
AllGood limit [] = Unit {0}
AllGood limit (res ∷ results) = IsGood limit res × AllGood limit results

pub new_line_reader-IsValid :
    (size max_line : ℕ) → 0 < size → 0 < max_line → IsValid (new_line_reader size max_line)
unfolding new_line_reader flat
new_line_reader-IsValid size max_line h k = record {
  ordered = omega arith;
  in_range = omega arith;
  sized = length-make size;
  room = h;
  budget = omega arith;
  left = k;
  one_line = tt;
}

-- `Reset` of a valid reader drops the window and keeps what overflowed, by which the length that is
-- still allowed stays the shorter.
pub held-reset :
    (lr : LineReader)
    → IsValid lr
    → (held (reset lr) ≡ flat lr.overflow)
      × ((reset lr).cur_max + length (held (reset lr)) ≡ lr.max_line)
unfolding held reset window
held-reset lr v = (append-nil _, rw (append-nil (flat lr.overflow)) v.budget)

module _ (r : Reader) where
  open r use {State, rest}

  -- So many calls, one after the other.
  unfoldable pub read_slices :
      ℕ → LineReader → State → Option (LineReader × State × List ReadResult)
  read_slices zero lr s = some (lr, s, [])
  read_slices (suc n) lr s = elim (read_slice r lr s) [
    | none ↦ none
    | some (lr', s', res) ↦ elim (read_slices n lr' s') [
      | none ↦ none
      | some (last, s'', results) ↦ some (last, s'', res ∷ results)
    ]
  ]

  abbrev ReadsAll : ℕ → LineReader → State → Type 0
  ReadsAll n lr s =
      (lr' : LineReader) × (s' : State) × (results : List ReadResult) × (read_slices n lr s
        ≡ some (lr', s', results))
      × (length results ≡ n)
      × AllGood lr.max_line results
      × (held lr ++ rest s ≡ all_bytes results ++ (held lr' ++ rest s'))

  read_slices-ReadsAll : (n : ℕ) (lr : LineReader) (s : State) → IsValid lr → ReadsAll n lr s
  unfolding read_slices
  read_slices-ReadsAll zero lr s v = (lr, s, [], refl, refl, tt, refl)
  read_slices-ReadsAll (suc n) lr s v =
      let (lr₁, s₁, res, e, v₁, good, kept, m) = read_slice-Reads r lr s v in
      let (lr₂, s₂, results, e', len, all, kept') = read_slices-ReadsAll n lr₁ s₁ v₁ in
      (
        lr₂,
        s₂,
        res ∷ results,
        rw (e, read_slices) (rw e'),
        ap suc len,
        (good, subst (λ limit. AllGood limit results) m all),
        kept
            ∙ ap (◌++◌ (bytes_of res)) kept'
            ∙ sym (append_assoc (bytes_of res) (all_bytes results) (held lr₂ ++ rest s₂)),
      )

  -- A new reader with a buffer and a limit answers any number of calls, each within its fuel. Every
  -- line ends with its one line feed and is within the limit, every part cut short is as long as
  -- the limit and has no line feed, and the results are, one after the other, the bytes of the
  -- stream from its start: what the reader still holds, and then the rest of the stream, follows.
  pub read_slices-new_line_reader :
      (size max_line n : ℕ) (s : State)
      → 0 < size
      → 0 < max_line
      → (lr : LineReader) × (s' : State) × (results : List ReadResult) × (read_slices n
            (new_line_reader size max_line)
            s
          ≡ some (lr, s', results))
        × (length results ≡ n)
        × AllGood max_line results
        × (rest s ≡ all_bytes results ++ (held lr ++ rest s'))
  unfolding new_line_reader held flat window
  read_slices-new_line_reader size max_line n s h k =
      read_slices-ReadsAll n (new_line_reader size max_line) s
        (new_line_reader-IsValid size max_line h k)
