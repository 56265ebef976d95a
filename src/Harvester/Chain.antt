-- ===== src/Harvester/Chain.antt =====
-- The codecs of a harvester, one behind the other (lc-lib/harvester/harvester.go, lc-lib/codecs/codecs.go).
-- What the timer of a multiline codec flushes between two lines is not part of this chain.
use log_courier.Common.{ℕ, List, [], ◌∷◌, ◌++◌, Option, none, some}
use log_courier.Codecs.{Emitted}
use log_courier.Codecs.Plain as Plain
use log_courier.Codecs.Filter as Filter
use log_courier.Codecs.Multiline as Multiline
use log_courier.Codecs.Patterns.{PatternCollection}

pub data CodecFactory : Type 0 where
  plain_factory : CodecFactory
  filter_factory : PatternCollection → CodecFactory
  multiline_factory : Multiline.Factory → CodecFactory

pub data Codec : Type 0 where
  plain : Plain.CodecPlain → Codec
  filter : Filter.CodecFilter → Codec
  multiline : Multiline.CodecMultiline → Codec

unfoldable pub new_codec : CodecFactory → (offset now : ℕ) → Codec
new_codec plain_factory offset now = plain (Plain.new_codec offset)
new_codec (filter_factory patterns) offset now = filter (Filter.new_codec patterns offset)
new_codec (multiline_factory f) offset now = multiline (Multiline.new_codec f offset now)

unfoldable pub teardown : Codec → ℕ
unfolding Plain.teardown Filter.teardown Multiline.teardown
teardown (plain c) = Plain.teardown c
teardown (filter c) = Filter.teardown c
teardown (multiline c) = Multiline.teardown c

unfoldable pub reset : Codec → Codec
unfolding Plain.reset Filter.reset Multiline.reset
reset (plain c) = plain (Plain.reset c)
reset (filter c) = filter (Filter.reset c)
reset (multiline c) = multiline (Multiline.reset c)

abbrev as_plain : Plain.CodecPlain × List Emitted → Codec × List Emitted
as_plain (c, es) = (plain c, es)

abbrev as_filter : Option (Filter.CodecFilter × List Emitted) → Option (Codec × List Emitted)
as_filter none = none
as_filter (some (c, es)) = some (filter c, es)

abbrev as_multiline :
    Option (Multiline.CodecMultiline × List Emitted) → Option (Codec × List Emitted)
as_multiline none = none
as_multiline (some (c, es)) = some (multiline c, es)

-- `none` is a panic of the codec.
unfoldable pub event : (now : ℕ) → Codec → Emitted → Option (Codec × List Emitted)
unfolding Plain.event Filter.event Multiline.event
event now (plain c) e = some (as_plain (Plain.event c e.start_offset e.end_offset e.text))
event now (filter c) e = as_filter (Filter.event c e.start_offset e.end_offset e.text)
event now (multiline c) e = as_multiline (Multiline.event c now e.start_offset e.end_offset e.text)

-- Its callbacks are calls of the next codec's `Event`.
unfoldable pub events : (now : ℕ) → Codec → List Emitted → Option (Codec × List Emitted)
unfolding event
events now c [] = some (c, [])
events now c (e ∷ es) = elim (event now c e) [
  | none ↦ none
  | some (c', out) ↦ elim (events now c' es) [
    | none ↦ none
    | some (last, more) ↦ some (last, out ++ more)
  ]
]

-- The rest of the chain, with the events that reach the harvester's callback.
unfoldable pub through : (now : ℕ) → List Codec → List Emitted → Option (List Codec × List Emitted)
unfolding events
through now [] es = some ([], es)
through now (c ∷ cs) es = elim (events now c es) [
  | none ↦ none
  | some (c', out) ↦ elim (through now cs out) [
    | none ↦ none
    | some (cs', last) ↦ some (c' ∷ cs', last)
  ]
]

unfoldable pub new_chain : List CodecFactory → (offset now : ℕ) → List Codec
unfolding new_codec
new_chain [] offset now = []
new_chain (f ∷ fs) offset now = new_codec f offset now ∷ new_chain fs offset now
