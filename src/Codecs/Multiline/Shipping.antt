-- ===== src/Codecs/Multiline/Shipping.antt =====
-- What the multiline codec (lc-lib/codecs/multiline.go) ships: the offsets of the events follow
-- each other without a gap, and their texts hold the bytes of the lines.
use log_courier.Common.{
  ℕ, ◌≤◌, ◌≡◌, refl, sym, ap, ◌∙◌, ◌⊎◌, inl, inr, List, [], ◌∷◌, ◌++◌, length, arith, ◌==◌,
  if◌then◌else◌, append_assoc, append-nil,
}
use log_courier.Codecs.{Text, Emitted}
use log_courier.Codecs.Multiline.{CodecMultiline, join, flush_lines, flush}
use log_courier.Codecs.Multiline.Bounds.{IsValid, total, length-join}

-- The bytes of a text but its line feeds, which `join` adds and the reader takes away.
unfoldable pub strip : Text → Text
strip [] = []
strip (b ∷ text) = if b == b'\n' then strip text else b ∷ strip text

unfoldable pub strip_all : List Text → Text
strip_all [] = []
strip_all (text ∷ texts) = strip text ++ strip_all texts

-- The bytes of the events, in their order.
unfoldable pub shipped : List Emitted → Text
shipped [] = []
shipped (e ∷ es) = strip e.text ++ shipped es

-- Each event begins where the one before it ended, the first at `a`, and the last ends at `b`.
abbrev pub Tiles : ℕ → ℕ → List Emitted → Type 0
Tiles a b [] = a ≡ b
Tiles a b (e ∷ es) = (e.start_offset ≡ a) × Tiles e.end_offset b es

abbrev pub Bounded : ℕ → List Emitted → Type 0
Bounded limit [] = Unit {0}
Bounded limit (e ∷ es) = (length e.text ≤ limit) × Bounded limit es

pub strip-append : (xs ys : Text) → strip (xs ++ ys) ≡ strip xs ++ strip ys
unfolding strip
strip-append [] ys = refl
strip-append (x ∷ xs) ys = ground (arith, strip-append xs ys)

pub shipped-append : (xs ys : List Emitted) → shipped (xs ++ ys) ≡ shipped xs ++ shipped ys
unfolding shipped
shipped-append [] ys = refl
shipped-append (x ∷ xs) ys = simp (shipped-append xs ys, append_assoc)

pub Tiles-append :
    (a b c : ℕ) (xs ys : List Emitted) → Tiles a b xs → Tiles b c ys → Tiles a c (xs ++ ys)
Tiles-append a b c [] ys p q = rw p q
Tiles-append a b c (x ∷ xs) ys p q = (p.0, Tiles-append x.end_offset b c xs ys p.1 q)

pub Bounded-append :
    (limit : ℕ) (xs ys : List Emitted)
    → Bounded limit xs
    → Bounded limit ys
    → Bounded limit (xs ++ ys)
Bounded-append limit [] ys p q = q
Bounded-append limit (x ∷ xs) ys p q = (p.0, Bounded-append limit xs ys p.1 q)

pub strip_all-append : (xs ys : List Text) → strip_all (xs ++ ys) ≡ strip_all xs ++ strip_all ys
unfolding strip_all
strip_all-append [] ys = refl
strip_all-append (x ∷ xs) ys = simp (strip_all-append xs ys, append_assoc)

pub strip-join : (texts : List Text) → strip (join texts) ≡ strip_all texts
unfolding strip_all join strip
strip-join [] = refl
strip-join (line ∷ []) = sym (append-nil (strip line))
strip-join (line ∷ second ∷ lines) =
    rw strip-append (ap (◌++◌ (strip line)) (strip-join (second ∷ lines)))

-- The bytes that wait in the buffer.
unfoldable pub pending : CodecMultiline → Text
pending c = strip (join c.buffer)

-- The codec stands at `pos` in the file: what it holds began at its last offset.
pub record IsAt (pos : ℕ) (c : CodecMultiline) : Type 0 where
  pub idle : c.buffer ≡ [] → c.last_offset ≡ pos
  pub held :
      (line : Text) (lines : List Text)
      → c.buffer ≡ line ∷ lines
      → (c.start_offset ≡ c.last_offset) × (c.end_offset ≡ pos)

-- From `c` to `c'`, with the events `es`, by the bytes `input`.
pub record Ships (c : CodecMultiline) (input : Text) (es : List Emitted) (c' : CodecMultiline)
    : Type 0 where
  pub config : c'.config ≡ c.config
  pub valid : IsValid c'
  pub bounded : Bounded c.config.max_multiline_bytes es
  pub tiles : Tiles c.last_offset c'.last_offset es
  pub bytes : shipped es ++ pending c' ≡ pending c ++ strip input

pub Ships-refl : (c : CodecMultiline) → IsValid c → Ships c [] [] c
unfolding shipped strip
Ships-refl c v = record {
  config = refl;
  valid = v;
  bounded = tt;
  tiles = refl;
  bytes = sym (append-nil (pending c));
}

chain_bytes :
    (a f p p' p'' i j : Text)
    → a ++ p' ≡ p ++ i
    → f ++ p'' ≡ p' ++ j
    → (a ++ f) ++ p'' ≡ p ++ (i ++ j)
chain_bytes a f p p' p'' i j s t =
    append_assoc a f p''
    ∙ ap (◌++◌ a) t
    ∙ sym (append_assoc a p' j)
    ∙ ap (λ l. l ++ j) s
    ∙ append_assoc p i j

pub Ships-trans :
    (c c' c'' : CodecMultiline) (i j : Text) (es fs : List Emitted)
    → Ships c i es c'
    → Ships c' j fs c''
    → Ships c (i ++ j) (es ++ fs) c''
Ships-trans c c' c'' i j es fs s t = record {
  config = t.config ∙ s.config;
  valid = t.valid;
  bounded =
      Bounded-append _ es fs s.bounded (rw (ap (λ f. f.max_multiline_bytes) s.config) at t.bounded);
  tiles = Tiles-append _ _ _ es fs s.tiles t.tiles;
  bytes =
      rw (shipped-append es fs, strip-append i j)
        (chain_bytes (shipped es) (shipped fs) (pending c) (pending c') (pending c'') (strip i)
          (strip j) s.bytes t.bytes);
}

-- A flush of an empty buffer does nothing; else the codec ships what it holds.
flush_cases :
    (c : CodecMultiline) (buffer : List Text)
    → c.buffer ≡ buffer
    → ((buffer ≡ []) × (flush c ≡ (c, [])))
      ⊎ ((line : Text) × (lines : List Text) × (buffer ≡ line ∷ lines)
          × (flush c ≡ (
            record c { last_offset = c.end_offset; buffer = []; buffer_len = 0; buffer_lines = 0 },
            record {
              start_offset = c.start_offset;
              end_offset = c.end_offset;
              text = join (line ∷ lines);
            }
                ∷ [],
          )))
unfolding flush flush_lines
flush_cases c [] e = inl (refl, rw (e, flush_lines))
flush_cases c (line ∷ lines) e = inr (line, lines, refl, rw (e, flush_lines))

flushed_bytes :
    (c : CodecMultiline) (line : Text) (lines : List Text)
    → c.buffer ≡ line ∷ lines
    → (e : Emitted) → e.text ≡ join (line ∷ lines)
    → shipped (e ∷ []) ++ [] ≡ pending c ++ []
unfolding shipped pending
flushed_bytes c line lines b e t = rw (b, t) (ap (λ l. l ++ []) (append-nil _))

pub flush-Ships :
    (pos : ℕ) (c : CodecMultiline)
    → IsValid c
    → IsAt pos c
    → Ships c [] (flush c).1 (flush c).0 × IsAt pos (flush c).0
unfolding strip pending join
flush-Ships pos c v at_pos = elim (flush_cases c c.buffer refl) [
  | inl (e, f) ↦ rw f (Ships-refl c v, at_pos)
  | inr (line, lines, e, f) ↦ rw f (
    record {
      config = refl;
      valid = record { lines = refl; bytes = refl; room = omega arith };
      bounded = (
        omega (arith, length-join line lines, v.room, v.bytes, v.lines, ap total e, ap length e),
        tt,
      );
      tiles = (((at_pos.held line lines e).0), refl);
      bytes = flushed_bytes c line lines e _ refl;
    },
    record { idle = λ _. (at_pos.held line lines e).1; held = λ l ls q. cc },
  )
]
