-- ===== src/Codecs/Plain.antt =====
-- lc-lib/codecs/plain.go: each line is an event.
use log_courier.Common.{ℕ, List, [], ◌∷◌}
use log_courier.Codecs.{Text, Emitted}

pub record CodecPlain : Type 0 where
  pub last_offset : ℕ

unfoldable pub new_codec : ℕ → CodecPlain
new_codec offset = record { last_offset = offset }

unfoldable pub teardown : CodecPlain → ℕ
teardown c = c.last_offset

unfoldable pub reset : CodecPlain → CodecPlain
reset c = c

unfoldable pub event : CodecPlain → ℕ → ℕ → Text → CodecPlain × List Emitted
event c start end text = (
  record c { last_offset = end },
  record { start_offset = start; end_offset = end; text = text } ∷ [],
)
