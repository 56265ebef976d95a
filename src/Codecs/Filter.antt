-- ===== src/Codecs/Filter.antt =====
-- lc-lib/codecs/filter.go: only the lines that match are events.
use log_courier.Common.{
  ◌≡◌, refl, arith, Bool, inl, inr, Bool-cases, ap, ◌∙◌, length, ◌++◌, ℕ, ◌+◌, true, false, List,
  [], ◌∷◌, Option, none, some,
}
use log_courier.Codecs.{Text, Emitted}
use log_courier.Codecs.Patterns.{PatternCollection, match}

pub record CodecFilter : Type 0 where
  pub patterns : PatternCollection
  pub last_offset : ℕ
  pub filtered_lines : ℕ
  pub meter_filtered : ℕ

unfoldable pub new_codec : PatternCollection → ℕ → CodecFilter
new_codec patterns offset = record {
  patterns = patterns;
  last_offset = offset;
  filtered_lines = 0;
  meter_filtered = 0;
}

unfoldable pub teardown : CodecFilter → ℕ
teardown c = c.last_offset

unfoldable pub reset : CodecFilter → CodecFilter
reset c = c

-- `none` is the panic of `Match`.
unfoldable pub event : CodecFilter → ℕ → ℕ → Text → Option (CodecFilter × List Emitted)
event c start end text = elim (match c.patterns text) [
  | none ↦ none
  | some true ↦ some (
    record c { last_offset = end },
    record { start_offset = start; end_offset = end; text = text } ∷ [],
  )
  | some false ↦ some (record c { filtered_lines = c.filtered_lines + 1; last_offset = end }, [])
]

unfoldable pub meter : CodecFilter → CodecFilter
meter c = record c { meter_filtered = c.filtered_lines }

-- The lines of a file, each with its length in the file, through the codec from a position on.
pub run : CodecFilter → (pos : ℕ) → List (ℕ × Text) → Option (CodecFilter × List Emitted)
run c pos [] = some (c, [])
run c pos ((bytes, text) ∷ lines) = elim (event c pos (pos + bytes) text) [
  | none ↦ none
  | some (c', es) ↦ elim (run c' (pos + bytes) lines) [
    | none ↦ none
    | some (last, more) ↦ some (last, es ++ more)
  ]
]

-- The lines that match, with their places in the file.
unfoldable pub matching : PatternCollection → (pos : ℕ) → List (ℕ × Text) → List Emitted
matching patterns pos [] = []
matching patterns pos ((bytes, text) ∷ lines) = elim (match patterns text) [
  | some true ↦
      record { start_offset = pos; end_offset = pos + bytes; text = text }
      ∷ matching patterns (pos + bytes) lines
  | _ ↦ matching patterns (pos + bytes) lines
]

unfoldable pub end_of : (pos : ℕ) → List (ℕ × Text) → ℕ
end_of pos [] = pos
end_of pos ((bytes, text) ∷ lines) = end_of (pos + bytes) lines

-- If the patterns answer, the codec ships the lines that match, each whole, with its offsets and in
-- order, counts every other line as filtered, and resumes behind the last line, shipped or not.
pub run-matching :
    (c : CodecFilter) (pos : ℕ) (lines : List (ℕ × Text))
    → ((text : Text) → (matched : Bool) × (match c.patterns text ≡ some matched))
    → c.last_offset ≡ pos
    → (last : CodecFilter) × (run c pos lines ≡ some (last, matching c.patterns pos lines))
      × (last.filtered_lines + length (matching c.patterns pos lines)
          ≡ c.filtered_lines + length lines)
      × (teardown last ≡ end_of pos lines)
unfolding run event matching end_of teardown
run-matching c pos [] answers e = (c, refl, refl, e)
run-matching c pos ((bytes, text) ∷ lines) answers e =
    let (matched, m) = answers text in
    elim (Bool-cases matched) [
      | inl t ↦
          let c' = record c { last_offset = pos + bytes } in
          let (last, r, n, o) = run-matching c' (pos + bytes) lines answers refl in
          let q = m ∙ ap some t in (last, ground (arith, q, r), ground (arith, q, n), o)
      | inr f ↦
          let c' = record c { filtered_lines = c.filtered_lines + 1; last_offset = pos + bytes } in
          let (last, r, n, o) = run-matching c' (pos + bytes) lines answers refl in
          let q = m ∙ ap some f in (last, ground (arith, q, r), ground (arith, q, n), o)
    ]
