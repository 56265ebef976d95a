-- ===== src/Codecs/Multiline/Lines.antt =====
-- One line, or one timer tick, through the multiline codec (lc-lib/codecs/multiline.go).
use log_courier.Common.{
  ℕ, ◌+◌, ◌<◌, ◌≡◌, refl, sym, ap, ◌∙◌, subst, ◌⊎◌, inl, inr, Bool, true, false, List, [], ◌∷◌,
  ◌++◌, Option, some, length, ◌==◌, append-nil, ltb, Bool-cases,
}
use log_courier.Codecs.{Text, Emitted}
use log_courier.Codecs.Patterns.{PatternCollection, match}
use log_courier.Codecs.Multiline.{
  What, CodecMultiline, append_line, start_line, is_empty, before_line, after_line, cut_loop,
  event_matched, finish_line, event, deadline_tick,
}
use log_courier.Codecs.Multiline.Bounds.{IsValid, Cuts, cut_loop-total}
use log_courier.Codecs.Multiline.Shipping.{
  strip, shipped, pending, IsAt, Ships, Ships-refl, Ships-trans, flush-Ships,
}
use log_courier.Codecs.Multiline.Cutting.{Cuts-Ships, append_line-Ships}

is_empty_cases :
    (buffer : List Text)
    → ((buffer ≡ []) × (is_empty buffer ≡ true))
      ⊎ ((line : Text) × (lines : List Text) × (buffer ≡ line ∷ lines) × (is_empty buffer ≡ false))
unfolding is_empty
is_empty_cases [] = inl (refl, refl)
is_empty_cases (line ∷ lines) = inr (line, lines, refl, refl)

start_line-Ships :
    (pos : ℕ) (c : CodecMultiline)
    → IsValid c
    → IsAt pos c
    → let c' = start_line (is_empty c.buffer) c pos in
      Ships c [] [] c' × (c'.start_offset ≡ c'.last_offset)
unfolding start_line
start_line-Ships pos c v at_pos = elim (is_empty_cases c.buffer) [
  | inl (e, b) ↦ rw b (
    record {
      config = refl;
      valid = record { lines = v.lines; bytes = v.bytes; room = v.room };
      bounded = tt;
      tiles = refl;
      bytes = unfold shipped pending strip in sym (append-nil _);
    },
    sym (at_pos.idle e),
  )
  | inr (line, lines, e, b) ↦ rw b (Ships-refl c v, (at_pos.held line lines e).0)
]

before_line-Ships :
    (what : What) (matched : Bool) (pos : ℕ) (c : CodecMultiline)
    → IsValid c
    → IsAt pos c
    → Ships c [] (before_line what matched c).1 (before_line what matched c).0
      × IsAt pos (before_line what matched c).0
unfolding before_line
before_line-Ships What.previous true pos c v at_pos = (Ships-refl c v, at_pos)
before_line-Ships What.previous false pos c v at_pos = flush-Ships pos c v at_pos
before_line-Ships What.next matched pos c v at_pos = (Ships-refl c v, at_pos)

set_timer-Ships :
    (deadline pos : ℕ) (c : CodecMultiline)
    → IsValid c
    → IsAt pos c
    → Ships c [] [] (record c { timer_deadline = deadline })
      × IsAt pos (record c { timer_deadline = deadline })
set_timer-Ships deadline pos c v at_pos = (
  record {
    config = refl;
    valid = record { lines = v.lines; bytes = v.bytes; room = v.room };
    bounded = tt;
    tiles = refl;
    bytes = unfold shipped pending strip in sym (append-nil _);
  },
  record { idle = at_pos.idle; held = at_pos.held },
)

after_line-Ships :
    (what : What) (matched : Bool) (now pos : ℕ) (c : CodecMultiline)
    → IsValid c
    → IsAt pos c
    → Ships c [] (after_line what matched now c).1 (after_line what matched now c).0
      × IsAt pos (after_line what matched now c).0
unfolding after_line
after_line-Ships What.previous matched now pos c v at_pos =
    elim (Bool-cases (c.config.previous_timeout == 0)) [
      | inl off ↦ rw off (Ships-refl c v, at_pos)
      | inr on ↦ rw on (set_timer-Ships (now + c.config.previous_timeout) pos c v at_pos)
    ]
after_line-Ships What.next true now pos c v at_pos = (Ships-refl c v, at_pos)
after_line-Ships What.next false now pos c v at_pos = flush-Ships pos c v at_pos

close-Ships :
    (matched : Bool) (now end : ℕ) (c c₃ : CodecMultiline) (text rest : Text) (cuts : List Emitted)
    → (taken : Text) × (taken ++ rest ≡ text)
      × Ships c taken cuts c₃
      × (c₃.start_offset ≡ c₃.last_offset)
      × (c₃.buffer_len + length rest + c₃.buffer_lines < c₃.config.max_multiline_bytes)
    → let r = after_line c₃.config.what matched now (append_line c₃ end rest) in
      Ships c text (cuts ++ r.1) r.0 × IsAt end r.0
close-Ships matched now end c c₃ text rest cuts (taken, split, s, opens, fits) =
    let c₄ = append_line c₃ end rest in
    let r = after_line c₃.config.what matched now c₄ in
    let (s₄, at₄) = append_line-Ships c₃ end rest s.valid opens fits in
    let (s₅, at₅) = after_line-Ships c₃.config.what matched now end c₄ s₄.valid at₄ in
    (
      subst (λ i. Ships c i (cuts ++ r.1) r.0) (ap (◌++◌ taken) (append-nil rest) ∙ split)
          (Ships-trans c c₃ r.0 taken (rest ++ []) cuts r.1 s
            (Ships-trans c₃ c₄ r.0 rest [] [] r.1 s₄ s₅)),
      at₅,
    )

abbrev pub Line :
    CodecMultiline → ℕ → Text → List Emitted → Option (CodecMultiline × List Emitted) → Type 0
Line c end text before result =
    (c' : CodecMultiline) × (es : List Emitted) × (result ≡ some (c', before ++ es))
    × Ships c text es c'
    × IsAt end c'

looped-Ships :
    (matched : Bool) (now end : ℕ) (before : List Emitted) (c : CodecMultiline) (text : Text)
    (result : Option (CodecMultiline × Text × List Emitted))
    → IsValid c
    → c.start_offset ≡ c.last_offset
    → (c₃ : CodecMultiline) × (rest : Text) × (cuts : List Emitted) × (result
        ≡ some (c₃, rest, cuts))
      × Cuts c text cuts c₃ rest
    → Line c end text before (finish_line matched now end before result)
looped-Ships matched now end before c text result v opens (c₃, rest, cuts, e, loop) =
    let r = after_line c₃.config.what matched now (append_line c₃ end rest) in
    let (s, at_end) =
      close-Ships matched now end c c₃ text rest cuts
        (Cuts-Ships c text cuts c₃ rest v opens loop) in
    (r.0, cuts ++ r.1, rw e (unfold finish_line in refl), s, at_end)

started-Ships :
    (matched : Bool) (now end : ℕ) (before : List Emitted) (c : CodecMultiline) (text : Text)
    → 0 < c.config.max_multiline_bytes
    → IsValid c
    → c.start_offset ≡ c.last_offset
    → Line c end text before (
        finish_line matched now end before
          (cut_loop (length text + 2) c (c.buffer_len + length text + c.buffer_lines) end text))
started-Ships matched now end before c text limit v opens =
    looped-Ships matched now end before c text _ v opens (cut_loop-total c end text limit v)

Line-trans :
    (c c' : CodecMultiline) (end : ℕ) (text : Text) (before : List Emitted)
    (result : Option (CodecMultiline × List Emitted))
    → Ships c [] before c'
    → Line c' end text before result
    → Line c end text [] result
Line-trans c c' end text before result s (last, es, e, t, at_end) =
    (last, before ++ es, e, Ships-trans c c' last [] text before es s t, at_end)

-- For a limit above zero and a codec whose counters count its buffer, a line that begins where the
-- codec stands is taken without a panic and within the fuel, and the codec then stands at the
-- line's end. Its events lie end to end from the codec's last offset to its new one, none is longer
-- than the limit, and they hold, with what still waits, all the bytes that waited and those of the
-- line, in order, but for line feeds.
pub event_matched-Ships :
    (c : CodecMultiline) (matched : Bool) (now pos end_offset : ℕ) (text : Text)
    → 0 < c.config.max_multiline_bytes
    → IsValid c
    → IsAt pos c
    → Line c end_offset text [] (event_matched c matched now pos end_offset text)
unfolding event_matched
event_matched-Ships c matched now pos end_offset text limit v at_pos =
    let r = before_line c.config.what matched c in
    let (s₁, at₁) = before_line-Ships c.config.what matched pos c v at_pos in
    let c₂ = start_line (is_empty r.0.buffer) r.0 pos in
    let (s₂, opens) = start_line-Ships pos r.0 s₁.valid at₁ in
    let s = Ships-trans c r.0 c₂ [] [] r.1 [] s₁ s₂ in
    Line-trans c c₂ end_offset text r.1 _ (subst (λ es. Ships c [] es c₂) (append-nil r.1) s) (
      started-Ships matched now end_offset r.1 c₂ text
        (subst (λ f. 0 < f.max_multiline_bytes) (sym s.config) limit) s₂.valid opens)

-- The patterns were set, so that they answer.
abbrev pub Answers : PatternCollection → Type 0
Answers patterns = (text : Text) → (matched : Bool) × (match patterns text ≡ some matched)

pub event-Ships :
    (c : CodecMultiline) (now pos end_offset : ℕ) (text : Text)
    → 0 < c.config.max_multiline_bytes
    → Answers c.config.patterns
    → IsValid c
    → IsAt pos c
    → Line c end_offset text [] (event c now pos end_offset text)
unfolding event
event-Ships c now pos end_offset text limit answers v at_pos =
    let (matched, m) = answers text in
    rw (m, event) (event_matched-Ships c matched now pos end_offset text limit v at_pos)

pub deadline_tick-Ships :
    (now pos : ℕ) (c : CodecMultiline)
    → IsValid c
    → IsAt pos c
    → Ships c [] (deadline_tick c now).1 (deadline_tick c now).0 × IsAt pos (deadline_tick c now).0
unfolding deadline_tick
deadline_tick-Ships now pos c v at_pos = elim (Bool-cases (ltb c.timer_deadline now)) [
  | inl due ↦ rw due (flush-Ships pos c v at_pos)
  | inr early ↦ rw early (Ships-refl c v, at_pos)
]
