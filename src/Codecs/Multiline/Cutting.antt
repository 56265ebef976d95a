-- ===== src/Codecs/Multiline/Cutting.antt =====
-- The cut texts of a long line, as the multiline codec (lc-lib/codecs/multiline.go) ships them.
use log_courier.Common.{
  ℕ, ◌+◌, ◌<◌, ◌≡◌, refl, sym, ap, ◌∙◌, List, [], ◌∷◌, ◌++◌, length, arith, length-append,
  append_assoc, append-nil,
}
use log_courier.Codecs.{Text, Emitted}
use log_courier.Codecs.Multiline.{CodecMultiline, join, append_line}
use log_courier.Codecs.Multiline.Bounds.{
  IsValid, total, total-append, length-join, Cuts, after_cut, cut_event,
}
use log_courier.Codecs.Multiline.Shipping.{
  strip, strip_all, shipped, pending, IsAt, Ships, Ships-refl, Ships-trans, strip_all-append,
  strip-join,
}

length-join_snoc :
    (buffer : List Text) (head : Text)
    → length (join (buffer ++ head ∷ [])) ≡ total buffer + length head + length buffer
unfolding join
length-join_snoc [] head = omega arith
length-join_snoc (line ∷ lines) head = omega (
  arith,
  length-join line (lines ++ head ∷ []),
  total-append lines (head ∷ []),
  length-append lines (head ∷ []),
)

strip-join_snoc :
    (buffer : List Text) (head : Text)
    → strip (join (buffer ++ head ∷ [])) ≡ strip (join buffer) ++ strip head
unfolding strip_all
strip-join_snoc buffer head =
    strip-join (buffer ++ head ∷ [])
    ∙ strip_all-append buffer (head ∷ [])
    ∙ ap (λ l. strip_all buffer ++ l) (append-nil (strip head))
    ∙ ap (λ l. l ++ strip head) (sym (strip-join buffer))

cut-Ships :
    (c : CodecMultiline) (end : ℕ) (head : Text)
    → IsValid c
    → c.start_offset ≡ c.last_offset
    → c.buffer_len + length head + c.buffer_lines ≡ c.config.max_multiline_bytes
    → Ships c head (cut_event c end head ∷ []) (after_cut c end)
unfolding strip join
cut-Ships c end head v open_at size = record {
  config = refl;
  valid = record { lines = refl; bytes = refl; room = omega arith };
  bounded = (omega (arith, length-join_snoc c.buffer head, v.lines, v.bytes), tt);
  tiles = (open_at, refl);
  bytes =
      unfold shipped pending in rw (strip-join_snoc c.buffer head) (append-nil _ ∙ append-nil _);
}

pub Cuts-Ships :
    (c : CodecMultiline) (text : Text) (es : List Emitted) (c' : CodecMultiline) (text' : Text)
    → IsValid c
    → c.start_offset ≡ c.last_offset
    → Cuts c text es c' text'
    → (taken : Text) × (taken ++ text' ≡ text)
      × Ships c taken es c'
      × (c'.start_offset ≡ c'.last_offset)
      × (c'.buffer_len + length text' + c'.buffer_lines < c'.config.max_multiline_bytes)
Cuts-Ships c text [] c' text' v open_at (p, q, fits) =
    rw (p, q) ([], refl, Ships-refl c v, open_at, fits)
Cuts-Ships c text (e ∷ es) c' text' v open_at (end, head, rest, split, size, p, cuts) =
    let s = cut-Ships c end head v open_at size in
    let (taken, split', s', open', fits) =
      Cuts-Ships (after_cut c end) rest es c' text' s.valid refl cuts in
    (
      head ++ taken,
      append_assoc head taken text' ∙ ap (◌++◌ head) split' ∙ split,
      rw p (Ships-trans c (after_cut c end) c' head taken (cut_event c end head ∷ []) es s s'),
      open',
      fits,
    )

pub append_line-Ships :
    (c : CodecMultiline) (end : ℕ) (text : Text)
    → IsValid c
    → c.start_offset ≡ c.last_offset
    → c.buffer_len + length text + c.buffer_lines < c.config.max_multiline_bytes
    → Ships c text [] (append_line c end text) × IsAt end (append_line c end text)
unfolding append_line
append_line-Ships c end text v open_at fits = (
  record {
    config = refl;
    valid = record {
      lines = omega (arith, length-append c.buffer (text ∷ []), v.lines);
      bytes = omega (arith, total-append c.buffer (text ∷ []), v.bytes);
      room = omega arith;
    };
    bounded = tt;
    tiles = refl;
    bytes = unfold shipped pending in strip-join_snoc c.buffer text;
  },
  record {
    idle = λ e. absurd (omega (arith, length-append c.buffer (text ∷ []), ap length e));
    held = λ l ls e. (open_at, refl);
  },
)
