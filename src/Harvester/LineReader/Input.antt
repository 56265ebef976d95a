-- ===== src/Harvester/LineReader/Input.antt =====
-- The `io.Reader` that a line reader reads from (lc-lib/harvester/linereader.go): a stream of bytes
-- that stands outside the repository, with what Go documents of `Read`.
use log_courier.Common.{ℕ, ◌≤◌, ◌<◌, ◌≡◌, List, ◌++◌, Option, none, length}

pub data ReadError : Type 0 where
  eof other : ReadError

pub record Reader : Type 1 where
  pub State : Type 0
  -- `Read` of a slice of some length: the bytes that it put there, and its error.
  pub read : State → ℕ → State × List ℕ × Option ReadError
  -- the bytes that the stream has yet to give
  pub rest : State → List ℕ
  -- no more than there is room for, and the next of the stream
  pub read_le : (s : State) (room : ℕ) → length (read s room).1 ≤ room
  pub read_rest : (s : State) (room : ℕ) → rest s ≡ (read s room).1 ++ rest (read s room).0
  -- where there is room, a byte at least, or an error
  pub read_progress :
      (s : State) (room : ℕ) → 0 < room → (read s room).2 ≡ none → 0 < length (read s room).1
