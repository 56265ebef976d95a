-- ===== src/Harvester/Reading.antt =====
-- lc-lib/harvester/harvester.go: how the harvester takes the line ending off what the line reader
-- returns, and hands the line to its codec with its offsets. Measurements, truncation and the stop
-- signal stand in Session.
pub mod Endings
mod Tests
use log_courier.Common.{
  ℕ, ◌+◌, ◌-◌, Bool, true, false, ◌&&◌, List, [], ◌∷◌, length, take, drop, ltb, ◌==◌, if◌then◌else◌,
}
use log_courier.Codecs.{Emitted}
use log_courier.Harvester.LineReader.Input.{ReadError, eof, other}
use log_courier.Harvester.LineReader.{ReadResult, line, too_long, failed}

-- The fields that a read changes.
pub record Harvester : Type 0 where
  pub offset : ℕ
  pub split : Bool
  pub line_count : ℕ
  pub byte_count : ℕ

-- What `readline` returns: a line with its length in the file, the end of the file after the wait
-- that backs off, or another error.
pub data ReadLine : Type 0 where
  read : List ℕ → ℕ → ReadLine
  at_end broken : ReadLine

-- `line[len(line)-2] == '\r'`.
abbrev pub carriage_return : List ℕ → Bool
carriage_return [] = false
carriage_return (c ∷ rest) = c == b'\r'

unfoldable pub newline : List ℕ → ℕ
newline text = if ltb 1 (length text) && carriage_return (drop (length text - 2) text) then 2 else 1

unfoldable pub readline : Harvester → ReadResult → Harvester × ReadLine
unfolding newline
readline h (line text) = (h, read (take (length text - newline text) text) (length text))
readline h (too_long text) = (record h { split = true }, read text (length text))
readline h (failed eof) = (h, at_end)
readline h (failed other) = (h, broken)

-- `performRead`: the arguments of its call of the codec's `Event`, if there is one.
unfoldable pub after_readline : Harvester × ReadLine → Harvester × List Emitted
after_readline (h, read text bytes) = (
  record h {
    offset = h.offset + bytes;
    line_count = h.line_count + 1;
    byte_count = h.byte_count + bytes;
  },
  record { start_offset = h.offset; end_offset = h.offset + bytes; text = text } ∷ [],
)
after_readline (h, at_end) = (h, [])
after_readline (h, broken) = (h, [])

unfoldable pub perform_read : Harvester → ReadResult → Harvester × List Emitted
unfolding readline after_readline
perform_read h result = after_readline (readline h result)
