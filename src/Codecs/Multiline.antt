-- ===== src/Codecs/Multiline.antt =====
-- lc-lib/codecs/multiline.go: lines are joined to events, as the patterns say. The deadline routine
-- takes the lock that `Event` takes, so its flush falls between two lines: `deadline_tick` is a
-- step of its own. Time is an argument; `previous_timeout` is 0 where the routine does not run.
pub mod Bounds
pub mod Shipping
pub mod Cutting
pub mod Lines
pub mod Runs
mod Tests
use log_courier.Common.{
  ℕ, zero, suc, ◌+◌, ◌-◌, Bool, true, false, not, ◌&&◌, List, [], ◌∷◌, ◌++◌, Option, none, some,
  length, take, drop, leb, ltb, ◌==◌, if◌then◌else◌, ℤ, sub_ℕ,
}
use log_courier.Codecs.{Text, Emitted}
use log_courier.Codecs.Patterns.{PatternCollection, match}

pub data What : Type 0 where
  previous next : What

pub record Factory : Type 0 where
  pub patterns : PatternCollection
  pub what : What
  pub previous_timeout : ℕ
  pub max_multiline_bytes : ℕ

pub record CodecMultiline : Type 0 where
  pub config : Factory
  pub last_offset : ℕ
  pub end_offset : ℕ
  pub start_offset : ℕ
  pub buffer : List Text
  pub buffer_lines : ℕ
  pub buffer_len : ℕ
  pub timer_deadline : ℕ
  pub meter_lines : ℕ
  pub meter_bytes : ℤ

-- The value of the option `what`, and the outcome of the factory's checks.
pub data WhatOption : Type 0 where
  unset previous next other : WhatOption

pub data FactoryResult : Type 0 where
  ok : Factory → FactoryResult
  unknown_what too_large : FactoryResult

what_of : WhatOption → Option What
what_of WhatOption.unset = some What.previous
what_of WhatOption.previous = some What.previous
what_of WhatOption.next = some What.next
what_of WhatOption.other = none

-- The checks of `NewMultilineCodecFactory` on the options that were read, `spool_max_bytes` being
-- that of the general configuration and the patterns being set already.
unfoldable pub new_factory :
    (spool_max_bytes : ℕ) → PatternCollection → WhatOption → ℕ → ℕ → FactoryResult
unfolding what_of
new_factory spool_max_bytes patterns what timeout max_bytes = elim (what_of what) [
  | none ↦ unknown_what
  | some w ↦
      let limit = if max_bytes == 0 then spool_max_bytes else max_bytes in
      if ltb spool_max_bytes limit
      then too_large
      else ok (record {
        patterns = patterns;
        what = w;
        previous_timeout = timeout;
        max_multiline_bytes = limit;
      })
]

unfoldable pub new_codec : Factory → ℕ → (now : ℕ) → CodecMultiline
new_codec f offset now = record {
  config = f;
  last_offset = offset;
  end_offset = offset;
  start_offset = 0;
  buffer = [];
  buffer_lines = 0;
  buffer_len = 0;
  timer_deadline = if f.previous_timeout == 0 then 0 else now + f.previous_timeout;
  meter_lines = 0;
  meter_bytes = ℤ.pos 0;
}

unfoldable pub teardown : CodecMultiline → ℕ
teardown c = c.last_offset

unfoldable pub reset : CodecMultiline → CodecMultiline
reset c = record c { last_offset = 0; buffer = []; buffer_len = 0; buffer_lines = 0 }

-- `strings.Join(buffer, "\n")`.
unfoldable pub join : List Text → Text
join [] = []
join (line ∷ []) = line
join (line ∷ second ∷ lines) = line ++ b'\n' ∷ join (second ∷ lines)

flush_lines : List Text → CodecMultiline → CodecMultiline × List Emitted
flush_lines [] c = (c, [])
flush_lines (line ∷ lines) c = (
  record c { last_offset = c.end_offset; buffer = []; buffer_len = 0; buffer_lines = 0 },
  record { start_offset = c.start_offset; end_offset = c.end_offset; text = join (line ∷ lines) }
      ∷ [],
)

unfoldable pub flush : CodecMultiline → CodecMultiline × List Emitted
unfolding flush_lines
flush c = flush_lines c.buffer c

is_empty : List Text → Bool
is_empty [] = true
is_empty (line ∷ lines) = false

-- The line that is appended, as a whole or in part.
unfoldable pub append_line : CodecMultiline → ℕ → Text → CodecMultiline
append_line c end text = record c {
  end_offset = end;
  buffer = c.buffer ++ text ∷ [];
  buffer_lines = c.buffer_lines + 1;
  buffer_len = c.buffer_len + length text;
}

-- The events of one round of the loop, before those of the rest.
abbrev then_cuts :
    List Emitted
    → Option (CodecMultiline × Text × List Emitted)
    → Option (CodecMultiline × Text × List Emitted)
then_cuts emitted none = none
then_cuts emitted (some (last, text, more)) = some (last, text, emitted ++ more)

-- The loop of `Event` that cuts a text too long, `check_len` being the loop's variable. A result
-- `none` is the panic of `text[:cut]` at a negative `cut`, or fuel that ran out. The end offset of
-- a line is no less than its length, as it is where a harvester counts it.
unfoldable pub cut_loop :
    ℕ
    → CodecMultiline
    → (check_len end_offset : ℕ) → Text
    → Option (CodecMultiline × Text × List Emitted)
unfolding append_line flush
cut_loop zero c check_len end_offset text = none
cut_loop (suc fuel) c check_len end_offset text =
    elim (leb c.config.max_multiline_bytes check_len) [
      | false ↦ some (c, text, [])
      | true ↦
          let overflow = check_len - c.config.max_multiline_bytes in
          elim (leb overflow (length text)) [
            | false ↦ none
            | true ↦
                let cut = length text - overflow in
                let (c', emitted) = flush (append_line c (end_offset - overflow) (take cut text)) in
                let rest = drop cut text in
                then_cuts emitted (
                  cut_loop fuel (record c' { start_offset = c'.end_offset }) (length rest)
                    end_offset rest)
          ]
    ]

-- Before the text is looked at: with `previous` a line that does not match ends the event before.
unfoldable pub before_line : What → Bool → CodecMultiline → CodecMultiline × List Emitted
before_line What.previous matched c = if matched then (c, []) else flush c
before_line What.next matched c = (c, [])

-- After it is appended: the timer is set anew, or with `next` a line that does not match ends the
-- event.
unfoldable pub after_line : What → Bool → (now : ℕ) → CodecMultiline → CodecMultiline × List Emitted
after_line What.previous matched now c = (
  if c.config.previous_timeout == 0
      then c
      else record c { timer_deadline = now + c.config.previous_timeout },
  [],
)
after_line What.next matched now c = if matched then (c, []) else flush c

-- The first line of an event says where it starts.
unfoldable pub start_line : Bool → CodecMultiline → ℕ → CodecMultiline
start_line true c start = record c { start_offset = start }
start_line false c start = c

-- The rest of `Event` after the loop.
unfoldable pub finish_line :
    Bool
    → (now end_offset : ℕ) → List Emitted
    → Option (CodecMultiline × Text × List Emitted)
    → Option (CodecMultiline × List Emitted)
unfolding after_line append_line flush
finish_line matched now end_offset before none = none
finish_line matched now end_offset before (some (c, rest, cuts)) =
    let (last, after) = after_line c.config.what matched now (append_line c end_offset rest) in
    some (last, before ++ (cuts ++ after))

-- `Event`, once the patterns have answered.
unfoldable pub event_matched :
    CodecMultiline
    → Bool
    → (now start_offset end_offset : ℕ) → Text
    → Option (CodecMultiline × List Emitted)
unfolding before_line start_line is_empty cut_loop finish_line
event_matched c matched now start_offset end_offset text =
    let (c₁, before) = before_line c.config.what matched c in
    let c₂ = start_line (is_empty c₁.buffer) c₁ start_offset in
    finish_line matched now end_offset before (
      cut_loop (length text + 2) c₂ (c₂.buffer_len + length text + c₂.buffer_lines) end_offset text)

unfoldable pub event :
    CodecMultiline
    → (now start_offset end_offset : ℕ) → Text
    → Option (CodecMultiline × List Emitted)
unfolding event_matched
event c now start_offset end_offset text = elim (match c.config.patterns text) [
  | none ↦ none
  | some matched ↦ event_matched c matched now start_offset end_offset text
]

-- The deadline routine's timer fires.
unfoldable pub deadline_tick : CodecMultiline → (now : ℕ) → CodecMultiline × List Emitted
unfolding flush
deadline_tick c now = if ltb c.timer_deadline now then flush c else (c, [])

unfoldable pub meter : CodecMultiline → CodecMultiline
meter c = record c { meter_lines = c.buffer_lines; meter_bytes = sub_ℕ c.end_offset c.last_offset }
