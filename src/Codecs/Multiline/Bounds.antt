-- ===== src/Codecs/Multiline/Bounds.antt =====
-- The multiline codec (lc-lib/codecs/multiline.go) never panics, its cutting loop ends, and no
-- event is longer than its limit.
use log_courier.Common.{
  leb→le, le→leb, ℕ, zero, suc, ◌+◌, ◌-◌, ◌≤◌, ◌<◌, ◌≡◌, refl, ap, ◌∙◌, inl, inr, true, false, List,
  [], ◌∷◌, ◌++◌, some, length, take, drop, arith, leb, Bool-cases, length-append, length-take,
  length-drop, take-append-drop,
}
use log_courier.Codecs.{Text, Emitted}
use log_courier.Codecs.Multiline.{
  CodecMultiline, join, flush_lines, flush, append_line, then_cuts, cut_loop,
}

abbrev pub total : List Text → ℕ
total [] = 0
total (line ∷ lines) = length line + total lines

pub total-append : (xs ys : List Text) → total (xs ++ ys) ≡ total xs + total ys
total-append [] ys = omega arith
total-append (x ∷ xs) ys = omega (arith, total-append xs ys)

pub length-join :
    (line : Text) (lines : List Text)
    → suc (length (join (line ∷ lines))) ≡ total (line ∷ lines) + length (line ∷ lines)
unfolding join
length-join line [] = omega arith
length-join line (second ∷ lines) =
    omega (arith, length-append line (b'\n' ∷ join (second ∷ lines)), length-join second lines)

-- The counters count the buffer, which has room for a separator after each line.
pub record IsValid (c : CodecMultiline) : Type 0 where
  pub lines : c.buffer_lines ≡ length c.buffer
  pub bytes : c.buffer_len ≡ total c.buffer
  pub room : c.buffer_len + c.buffer_lines ≤ c.config.max_multiline_bytes

-- The codec after a text was cut at `end`, and the event of the part before the cut.
abbrev pub after_cut : CodecMultiline → ℕ → CodecMultiline
after_cut c end = record c {
  end_offset = end;
  last_offset = end;
  start_offset = end;
  buffer = [];
  buffer_lines = 0;
  buffer_len = 0;
}

abbrev pub cut_event : CodecMultiline → ℕ → Text → Emitted
cut_event c end head = record {
  start_offset = c.start_offset;
  end_offset = end;
  text = join (c.buffer ++ head ∷ []);
}

-- What the cutting loop does: it ends with the codec and the text that fit, after events which are
-- each as long as the limit.
abbrev pub Cuts : CodecMultiline → Text → List Emitted → CodecMultiline → Text → Type 0
Cuts c text [] c' text' =
    (c' ≡ c)
    × (text' ≡ text)
    × (c.buffer_len + length text + c.buffer_lines < c.config.max_multiline_bytes)
Cuts c text (e ∷ es) c' text' =
    (end : ℕ) × (head : Text) × (rest : Text) × (head ++ rest ≡ text)
    × (c.buffer_len + length head + c.buffer_lines ≡ c.config.max_multiline_bytes)
    × (e ≡ cut_event c end head)
    × Cuts (after_cut c end) rest es c' text'

flush_append :
    (c : CodecMultiline) (buffer : List Text) (text : Text)
    → flush_lines (buffer ++ text ∷ []) c ≡ (
      record c { last_offset = c.end_offset; buffer = []; buffer_len = 0; buffer_lines = 0 },
      record {
        start_offset = c.start_offset;
        end_offset = c.end_offset;
        text = join (buffer ++ text ∷ []);
      }
          ∷ [],
    )
unfolding flush_lines
flush_append c [] text = refl
flush_append c (line ∷ lines) text = refl

flush-append_line :
    (c : CodecMultiline) (end : ℕ) (text : Text)
    → flush (append_line c end text)
      ≡ (record (after_cut c end) { start_offset = c.start_offset }, cut_event c end text ∷ [])
unfolding flush append_line
flush-append_line c end text = flush_append (append_line c end text) c.buffer text

cut_loop_step :
    (fuel : ℕ) (c : CodecMultiline) (check_len end_offset : ℕ) (text : Text)
    → leb c.config.max_multiline_bytes check_len ≡ true
    → let overflow = check_len - c.config.max_multiline_bytes in
      leb overflow (length text) ≡ true
      → cut_loop (suc fuel) c check_len end_offset text
        ≡ then_cuts
            (cut_event c (end_offset - overflow) (take (length text - overflow) text) ∷ [])
            (cut_loop fuel
              (after_cut c (end_offset - overflow))
              (length (drop (length text - overflow) text))
              end_offset
              (drop (length text - overflow) text))
cut_loop_step fuel c check_len end_offset text long fits =
    unfold cut_loop in
    rw (long, cut_loop)
      (rw fits (
        rw
          (flush-append_line c (end_offset - (check_len - c.config.max_multiline_bytes))
            (take (length text - (check_len - c.config.max_multiline_bytes)) text))
          refl))

cut_loop_done :
    (fuel : ℕ) (c : CodecMultiline) (check_len end_offset : ℕ) (text : Text)
    → leb c.config.max_multiline_bytes check_len ≡ false
    → cut_loop (suc fuel) c check_len end_offset text ≡ some (c, text, [])
unfolding cut_loop
cut_loop_done fuel c check_len end_offset text short = rw (short, cut_loop)

-- The rounds that the loop may still take: a cut at the start of the text can only be the first.
abbrev rounds : List Text → Text → ℕ
rounds [] text = length text
rounds (line ∷ lines) text = suc (length text)

rounds_fall :
    (buffer : List Text) (text : Text) (bytes lines limit : ℕ)
    → bytes ≡ total buffer
    → lines ≡ length buffer
    → 0 < limit
    → bytes + lines ≤ limit
    → limit ≤ bytes + length text + lines
    → bytes + length text + lines - limit < rounds buffer text
rounds_fall [] text bytes lines limit b l pos room long = omega arith
rounds_fall (line ∷ rest) text bytes lines limit b l pos room long = omega arith

cut_loop-Cuts :
    (fuel : ℕ) (c : CodecMultiline) (check_len end_offset : ℕ) (text : Text)
    → 0 < c.config.max_multiline_bytes
    → IsValid c
    → check_len ≡ c.buffer_len + length text + c.buffer_lines
    → rounds c.buffer text < fuel
    → (c' : CodecMultiline) × (text' : Text) × (es : List Emitted) × (cut_loop fuel c check_len
          end_offset text
        ≡ some (c', text', es))
      × Cuts c text es c' text'
cut_loop-Cuts zero c check_len end_offset text limit v check enough = absurd (omega arith)
cut_loop-Cuts (suc fuel) c check_len end_offset text limit v check enough =
    elim (Bool-cases (leb c.config.max_multiline_bytes check_len)) [
      | inr short ↦ (
        c,
        text,
        [],
        cut_loop_done fuel c check_len end_offset text short,
        (refl, refl, ground arith),
      )
      | inl long ↦
          let overflow = check_len - c.config.max_multiline_bytes in
          let cut = length text - overflow in
          let rest = drop cut text in
          let end = end_offset - overflow in
          let over : c.config.max_multiline_bytes ≤ check_len = leb→le _ _ long in
          let within : overflow ≤ length text = omega (arith, v.room) in
          let shorter : length rest ≡ overflow = omega (arith, length-drop cut text) in
          let falls : overflow < rounds c.buffer text = rw check (
            rounds_fall c.buffer text c.buffer_len c.buffer_lines c.config.max_multiline_bytes
              v.bytes v.lines limit v.room (omega arith)) in
          let size : c.buffer_len + length (take cut text) + c.buffer_lines
              ≡ c.config.max_multiline_bytes =
            omega (arith, length-take cut text, v.room) in
          let (c', text', es, e, cuts) =
            cut_loop-Cuts fuel (after_cut c end) (length rest) end_offset rest limit
              (record { lines = refl; bytes = refl; room = omega arith }) (omega arith)
              (omega arith) in
          (
            c',
            text',
            cut_event c end (take cut text) ∷ es,
            cut_loop_step fuel c check_len end_offset text long (le→leb _ _ within)
                ∙ ap (then_cuts (cut_event c end (take cut text) ∷ [])) e,
            (end, take cut text, rest, take-append-drop cut text, size, refl, cuts),
          )
    ]

rounds-le : (buffer : List Text) (text : Text) → rounds buffer text < length text + 2
rounds-le [] text = omega arith
rounds-le (line ∷ lines) text = omega arith

-- For a limit above zero and a codec whose counters count its buffer, the cutting loop ends with the
-- fuel that a line is given and no slice out of range: what is left of the text fits the buffer, and
-- before it, each event is the buffer and a part of the text, up to the limit.
pub cut_loop-total :
    (c : CodecMultiline) (end_offset : ℕ) (text : Text)
    → 0 < c.config.max_multiline_bytes
    → IsValid c
    → (c' : CodecMultiline) × (text' : Text) × (es : List Emitted) × (cut_loop
          (length text + 2)
          c
          (c.buffer_len + length text + c.buffer_lines)
          end_offset
          text
        ≡ some (c', text', es))
      × Cuts c text es c' text'
cut_loop-total c end_offset text limit v =
    cut_loop-Cuts (length text + 2) c (c.buffer_len + length text + c.buffer_lines) end_offset text
      limit v refl (rounds-le c.buffer text)
