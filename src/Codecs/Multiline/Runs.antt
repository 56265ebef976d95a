-- ===== src/Codecs/Multiline/Runs.antt =====
-- Runs of lines and timer ticks through the multiline codec (lc-lib/codecs/multiline.go).
use log_courier.Common.{
  ℕ, ◌+◌, ◌<◌, ◌≡◌, refl, sym, ap, ◌∙◌, subst, List, [], ◌∷◌, ◌++◌, Option, none, some, arith,
}
use log_courier.Codecs.{Text, Emitted}
use log_courier.Codecs.Multiline.{
  Factory, CodecMultiline, join, event, new_codec, teardown, deadline_tick,
}
use log_courier.Codecs.Multiline.Bounds.{IsValid}
use log_courier.Codecs.Multiline.Shipping.{
  strip, shipped, pending, Tiles, Bounded, IsAt, Ships, Ships-refl, Ships-trans,
}
use log_courier.Codecs.Multiline.Lines.{Answers, event-Ships, deadline_tick-Ships}

-- What happens to a codec: the harvester reads a line of so many bytes, or its timer fires.
pub data Step : Type 0 where
  line : (now bytes : ℕ) → Text → Step
  tick : (now : ℕ) → Step

-- `next` has the position in the file, which the harvester keeps.
abbrev ship :
    List Emitted
    → Option (CodecMultiline × ℕ × List Emitted)
    → Option (CodecMultiline × ℕ × List Emitted)
ship es none = none
ship es (some (c, pos, fs)) = some (c, pos, es ++ fs)

unfoldable pub run : CodecMultiline → ℕ → List Step → Option (CodecMultiline × ℕ × List Emitted)
run c pos [] = some (c, pos, [])
run c pos (line now bytes text ∷ steps) = elim (event c now pos (pos + bytes) text) [
  | none ↦ none
  | some (c', es) ↦ ship es (run c' (pos + bytes) steps)
]
run c pos (tick now ∷ steps) = let (c', es) = deadline_tick c now in ship es (run c' pos steps)

-- The bytes of the lines.
pub input : List Step → Text
input [] = []
input (line now bytes text ∷ steps) = text ++ input steps
input (tick now ∷ steps) = input steps

abbrev Ran : CodecMultiline → ℕ → List Step → Type 0
Ran c pos steps =
    (c' : CodecMultiline) × (pos' : ℕ) × (es : List Emitted) × (run c pos steps
      ≡ some (c', pos', es))
    × Ships c (input steps) es c'

run-Ships :
    (f : Factory) (c : CodecMultiline) (pos : ℕ) (steps : List Step)
    → 0 < f.max_multiline_bytes
    → Answers f.patterns
    → c.config ≡ f
    → IsValid c
    → IsAt pos c
    → (c' : CodecMultiline) × (pos' : ℕ) × (es : List Emitted) × (run c pos steps
        ≡ some (c', pos', es))
      × Ships c (input steps) es c'
unfolding run input
run-Ships f c pos [] limit answers e v at_pos = (c, pos, [], refl, Ships-refl c v)
run-Ships f c pos (line now bytes text ∷ steps) limit answers e v at_pos =
    let limit' = subst (λ g. 0 < g.max_multiline_bytes) (sym e) limit in
    let answers' = subst (λ g. Answers g.patterns) (sym e) answers in
    let (c₁, es, q, s, at₁) = event-Ships c now pos (pos + bytes) text limit' answers' v at_pos in
    let (c₂, pos₂, fs, r, t) =
      run-Ships f c₁ (pos + bytes) steps limit answers (s.config ∙ e) s.valid at₁ in
    (
      c₂,
      pos₂,
      es ++ fs,
      rw (q, run) (ap (ship es) r),
      Ships-trans c c₁ c₂ text (input steps) es fs s t,
    )
run-Ships f c pos (tick now ∷ steps) limit answers e v at_pos =
    let (c₁, es) = deadline_tick c now in
    let (s, at₁) = deadline_tick-Ships now pos c v at_pos in
    let (c₂, pos₂, fs, r, t) = run-Ships f c₁ pos steps limit answers (s.config ∙ e) s.valid at₁ in
    (c₂, pos₂, es ++ fs, ap (ship es) r, Ships-trans c c₁ c₂ [] (input steps) es fs s t)

-- With a limit above zero and patterns that answer, a new codec takes any lines, one after the
-- other, and timer ticks between them, without a panic and within its fuel. The first event starts
-- at the offset at which the codec began, each other at the end offset of the one before, and the last
-- end offset is the one that `Teardown` returns; no text is longer than the limit; and with what
-- still waits the texts hold all the bytes of the lines, once and in order, but for line feeds.
pub run-new_codec :
    (f : Factory) (offset now : ℕ) (steps : List Step)
    → 0 < f.max_multiline_bytes
    → Answers f.patterns
    → (c : CodecMultiline) × (pos : ℕ) × (es : List Emitted) × (run
          (new_codec f offset now)
          offset
          steps
        ≡ some (c, pos, es))
      × Tiles offset (teardown c) es
      × Bounded f.max_multiline_bytes es
      × (shipped es ++ pending c ≡ strip (input steps))
unfolding new_codec teardown pending strip input join
run-new_codec f offset now steps limit answers =
    let (c, pos, es, r, s) =
      run-Ships f (new_codec f offset now) offset steps limit answers refl
        (record { lines = refl; bytes = refl; room = omega arith })
        (record { idle = λ e. refl; held = λ l ls e. cc }) in
    (c, pos, es, r, s.tiles, s.bounded, s.bytes)
