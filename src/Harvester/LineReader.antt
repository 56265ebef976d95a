-- ===== src/Harvester/LineReader.antt =====
-- lc-lib/harvester/linereader.go. The buffer is an array with a window of unread bytes; a line that
-- is longer than the buffer collects in `overflow`, whose nil is the empty list here.
pub mod Input
pub mod Fill
pub mod Parts
pub mod Lines
pub mod Calls
pub mod Tests
use log_courier.Common.{
  ℕ, zero, suc, ◌+◌, ◌-◌, Bool, true, false, List, [], ◌∷◌, ◌++◌, Option, none, some, length, take,
  drop, leb, ltb, ◌==◌, if◌then◌else◌,
}
use Input.{Reader, ReadError}

pub record LineReader : Type 0 where
  pub buf : List ℕ
  pub overflow : List (List ℕ)
  pub size : ℕ
  pub max_line : ℕ
  pub cur_max : ℕ
  pub start : ℕ
  pub end : ℕ

abbrev pub make : ℕ → List ℕ
make zero = []
make (suc n) = 0 ∷ make n

unfoldable pub new_line_reader : (size max_line : ℕ) → LineReader
new_line_reader size max_line = record {
  buf = make size;
  overflow = [];
  size = size;
  max_line = max_line;
  cur_max = max_line;
  start = 0;
  end = 0;
}

unfoldable pub reset : LineReader → LineReader
reset lr = record lr { start = 0; end = 0 }

unfoldable pub buffered_len : LineReader → ℕ
buffered_len lr = lr.end - lr.start

-- `buf[start:end]`.
unfoldable pub window : LineReader → List ℕ
window lr = take (lr.end - lr.start) (drop lr.start lr.buf)

-- `bytes.IndexByte(text, '\n')`, where -1 is `none`.
unfoldable pub index_newline : List ℕ → Option ℕ
index_newline [] = none
index_newline (b ∷ text) =
    if b == b'\n' then some 0 else elim (index_newline text) [ none ↦ none | some n ↦ some (suc n) ]

-- `bytes.Join(overflow, []byte{})`.
unfoldable pub flat : List (List ℕ) → List ℕ
flat [] = []
flat (chunk ∷ chunks) = chunk ++ flat chunks

-- The results of `ReadSlice`: a line, a line cut short (`ErrLineTooLong`), or a reader's error.
pub data ReadResult : Type 0 where
  line : List ℕ → ReadResult
  too_long : List ℕ → ReadResult
  failed : ReadError → ReadResult

-- What `fill` does before it reads: the unread bytes move to the front.
unfoldable pub shift : LineReader → LineReader
unfolding window
shift lr = if lr.start == 0 then lr else record lr {
  buf = window lr ++ drop (lr.end - lr.start) lr.buf;
  end = lr.end - lr.start;
  start = 0;
}

-- The bytes that a read put at the end of the window.
unfoldable pub put : LineReader → List ℕ → LineReader
put lr bytes = record lr {
  buf = take lr.end lr.buf ++ (bytes ++ drop (lr.end + length bytes) lr.buf);
  end = lr.end + length bytes;
}

-- A full buffer without the end of its line goes to `overflow`.
unfoldable pub spill : LineReader → LineReader
spill lr =
    if leb (length lr.buf) (lr.end - lr.start)
    then record lr {
      start = 0;
      end = 0;
      overflow = lr.overflow ++ lr.buf ∷ [];
      cur_max = lr.cur_max - length lr.buf;
      buf = make lr.size;
    }
    else lr

-- The bytes of the buffer that end the line or its part, taken off the window.
unfoldable pub advance : LineReader → ℕ → LineReader
advance lr n = record lr { start = lr.start + n }

finish_from : List (List ℕ) → LineReader → List ℕ → LineReader × List ℕ
unfolding flat
finish_from [] lr text = (lr, text)
finish_from (chunk ∷ chunks) lr text =
    (record lr { overflow = []; cur_max = lr.max_line }, flat ((chunk ∷ chunks) ++ text ∷ []))

-- The end of `ReadSlice`: what overflowed comes before the text.
unfoldable pub finish : LineReader → List ℕ → LineReader × List ℕ
unfolding finish_from
finish lr text = finish_from lr.overflow lr text

-- Where the line ends, if that is within the length allowed.
unfoldable pub newline_at : LineReader → Option ℕ
unfolding index_newline window
newline_at lr = elim (index_newline (window lr)) [
  | none ↦ none
  | some n ↦ if ltb n lr.cur_max then some n else none
]

module _ (r : Reader) where
  open r use {State, read}

  unfoldable pub fill : LineReader → State → LineReader × State × Option ReadError
  unfolding shift put
  fill lr s =
      let lr' = shift lr in
      let (s', bytes, err) = read s (length lr'.buf - lr'.end) in (put lr' bytes, s', err)

  -- The loop of `ReadSlice`, on fuel: `err` is the loop's variable.
  unfoldable pub read_loop :
      ℕ → LineReader → State → Option ReadError → Option (LineReader × State × ReadResult)
  unfolding newline_at fill spill advance finish window
  read_loop zero lr s err = none
  read_loop (suc fuel) lr s err = elim (newline_at lr) [
    | some n ↦
        let (lr', text) = finish (advance lr (n + 1)) (take (n + 1) (window lr)) in
        some (lr', s, line text)
    | none ↦ elim err [
      | some e ↦ some (lr, s, failed e)
      | none ↦ elim (leb lr.cur_max (lr.end - lr.start)) [
        | true ↦
            let (lr', text) = finish (advance lr lr.cur_max) (take lr.cur_max (window lr)) in
            some (lr', s, too_long text)
        | false ↦ let (lr', s', err') = fill (spill lr) s in read_loop fuel lr' s' err'
      ]
    ]
  ]

  -- `ReadSlice`, with fuel for a read of each byte of the longest line.
  unfoldable pub read_slice : LineReader → State → Option (LineReader × State × ReadResult)
  unfolding read_loop
  read_slice lr s =
      if lr.end == 0
      then (let (lr', s', err) = fill lr s in read_loop (lr.max_line + 2) lr' s' err)
      else read_loop (lr.max_line + 2) lr s none
