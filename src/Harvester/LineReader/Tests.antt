-- ===== src/Harvester/LineReader/Tests.antt =====
-- Runs of lc-lib/harvester/linereader.go on a short stream, and the theorems about it there.
use log_courier.Common.{
  ℕ, ◌≤◌, ◌<◌, ◌≡◌, refl, sym, List, [], ◌∷◌, ◌++◌, Option, none, some, length, take, drop, arith,
  length-take, take-append-drop,
}
use log_courier.Harvester.LineReader.Input.{Reader, ReadError, eof}
use log_courier.Harvester.LineReader.{
  LineReader, ReadResult, line, too_long, failed, new_line_reader, read_slice,
}
use log_courier.Harvester.LineReader.Fill.{held}
use log_courier.Harvester.LineReader.Calls.{
  read_slices, AllGood, all_bytes, read_slices-new_line_reader,
}

-- A stream that is all there: a read takes what fits, and reports its end beside no byte.
pub take_some : List ℕ → ℕ → List ℕ × List ℕ × Option ReadError
take_some [] room = ([], [], some eof)
take_some (b ∷ text) room = (drop room (b ∷ text), take room (b ∷ text), none)

pub take_some_le : (text : List ℕ) (room : ℕ) → length (take_some text room).1 ≤ room
unfolding take_some
take_some_le [] room = omega arith
take_some_le (b ∷ text) room = omega (arith, length-take room (b ∷ text))

pub take_some_rest :
    (text : List ℕ) (room : ℕ) → text ≡ (take_some text room).1 ++ (take_some text room).0
unfolding take_some
take_some_rest [] room = refl
take_some_rest (b ∷ text) room = sym (take-append-drop room (b ∷ text))

pub take_some_progress :
    (text : List ℕ) (room : ℕ)
    → 0 < room
    → (take_some text room).2 ≡ none
    → 0 < length (take_some text room).1
unfolding take_some
take_some_progress [] room h e = ground arith
take_some_progress (b ∷ text) room h e = omega (arith, length-take room (b ∷ text))

abbrev pub stream : Reader
stream = record {
  State = List ℕ;
  read = take_some;
  rest = λ text. text;
  read_le = take_some_le;
  read_rest = take_some_rest;
  read_progress = take_some_progress;
}

-- "abcdef\ng\n"
abbrev pub text : List ℕ
text = 97 ∷ 98 ∷ 99 ∷ 100 ∷ 101 ∷ 102 ∷ 10 ∷ 103 ∷ 10 ∷ []

results_of : Option (LineReader × List ℕ × List ReadResult) → List ReadResult
results_of none = []
results_of (some (lr, s, results)) = results

-- A buffer of three bytes and lines of five: a part of five bytes, the rest of the line, a line,
-- the end.
read_slices_run :
    results_of (read_slices stream 4 (new_line_reader 3 5) text)
    ≡ too_long (97 ∷ 98 ∷ 99 ∷ 100 ∷ 101 ∷ [])
      ∷ line (102 ∷ 10 ∷ [])
      ∷ line (103 ∷ 10 ∷ [])
      ∷ failed eof
      ∷ []
unfolding results_of read_slices read_slice new_line_reader take_some
read_slices_run = refl

read_slices-new_line_reader_example :
    (lr : LineReader) × (s' : List ℕ) × (results : List ReadResult) × (read_slices stream 4
        (new_line_reader 3 5)
        text
      ≡ some (lr, s', results))
    × (length results ≡ 4)
    × AllGood 5 results
    × (text ≡ all_bytes results ++ (held lr ++ s'))
read_slices-new_line_reader_example =
    read_slices-new_line_reader stream 3 5 4 text (omega arith) (omega arith)
