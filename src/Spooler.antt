-- ===== src/Spooler.antt =====
-- lc-lib/spooler/spooler.go: events are gathered to spools for the publisher. A `select` takes any
-- channel that is ready, so what it takes is an input: of the loop of `Run`, an `Input`, and of
-- `sendSpool`, the next `Choice`. Times are arguments, the clock's at each call of `time.Now`, and
-- the timer is the moment that it is set to. Sizes are below 2^63.
pub mod Order
pub mod Limits
pub mod Rounds
pub mod Config
mod Tests
use log_courier.Common.{
  ℕ, zero, ◌+◌, ◌-◌, Bool, true, false, not, ◌&&◌, ◌||◌, List, [], ◌∷◌, ◌++◌, length, leb, ltb,
  ◌==◌, if◌then◌else◌, ℤ, pos, ◌-ℤ◌, ◌+ℤ◌, sub_ℕ,
}
use log_courier.Core.{EventDescriptor}

-- The part of the general configuration that the spooler reads.
pub record General : Type 0 where
  pub spool_size : ℕ
  pub spool_max_bytes : ℕ
  pub spool_timeout : ℕ

-- `capacity` is that of the slice `spool`, and `output` is what was sent to the channel, in order.
pub record Spooler : Type 0 where
  pub config : General
  pub spool : List EventDescriptor
  pub capacity : ℕ
  pub spool_size : ℕ
  pub output : List (List EventDescriptor)
  pub timer_start : ℕ
  pub timer : ℤ

-- What the `select` of `sendSpool` takes: the publisher takes the spool, the pipeline shuts down,
-- or a configuration comes, with the times before and after its flush.
pub data Choice : Type 0 where
  taken shutdown : Choice
  reconfigured : General → ℕ → ℕ → Choice

-- What the `select` of `Run` takes.
pub data Input : Type 0 where
  flush : Input
  event : EventDescriptor → ℕ → Input
  timeout : ℕ → Input
  shutdown : Input
  configure : General → ℕ → ℕ → Input

-- `going` is the result true, with the choices that are left, and `stopped` false; a `select` for
-- which there is no choice waits for ever.
pub data Outcome : Type 0 where
  going : Spooler → List Choice → Outcome
  stopped waiting : Spooler → Outcome

abbrev pub event_header_size : ℕ
event_header_size = 4

unfoldable pub new_spooler : General → (now : ℕ) → Spooler
new_spooler config now = record {
  config = config;
  spool = [];
  capacity = config.spool_size;
  spool_size = 0;
  output = [];
  timer_start = now;
  timer = pos (now + config.spool_timeout);
}

pub and_then : Outcome → (Spooler → List Choice → Outcome) → Outcome
and_then (going s cs) next = next s cs
and_then (stopped s) next = stopped s
and_then (waiting s) next = waiting s

-- `resetTimer`.
unfoldable pub reset_timer : ℕ → Spooler → Spooler
reset_timer now s = record s { timer_start = now; timer = pos (now + s.config.spool_timeout) }

-- The end of `sendSpool`.
unfoldable pub fresh_spool : Spooler → List Choice → Outcome
fresh_spool s cs =
    going (record s { spool = []; capacity = s.config.spool_size; spool_size = 0 }) cs

-- `reloadConfig` on a spooler that has its new configuration, given what its `sendSpool` returns.
pub reload_with : (flushed : Outcome) → ℕ → ℕ → Spooler → List Choice → Outcome
reload_with flushed now later s cs =
    let passed = sub_ℕ now s.timer_start in
    if leb (s.timer_start + s.config.spool_timeout) now || leb s.config.spool_size (length s.spool)
    then and_then flushed (λ sent rest. going (reset_timer later sent) rest)
    else going (record s { timer = pos now +ℤ (passed -ℤ pos s.config.spool_timeout) }) cs

unfoldable pub send_spool : List Choice → Spooler → Outcome
unfolding and_then reload_with fresh_spool
send_spool [] s = waiting s
send_spool (Choice.shutdown ∷ cs) s = stopped s
send_spool (reconfigured config now later ∷ cs) s =
    let s' = record s { config = config } in
    let flushed = send_spool cs s' in and_then (reload_with flushed now later s' cs) fresh_spool
send_spool (taken ∷ cs) s = fresh_spool (record s { output = s.output ++ s.spool ∷ [] }) cs

unfoldable pub reload_config : General → ℕ → ℕ → Spooler → List Choice → Outcome
unfolding reload_with
reload_config config now later s cs =
    let s' = record s { config = config } in reload_with (send_spool cs s') now later s' cs

-- `grow` is the capacity that `append` gives a slice that is full.
unfoldable pub queue : (grow : ℕ → ℕ) → EventDescriptor → Spooler → Spooler
queue grow e s = record s {
  spool_size = s.spool_size + (length e.payload + event_header_size);
  spool = s.spool ++ e ∷ [];
  capacity = if ltb (length s.spool) s.capacity then s.capacity else grow s.capacity;
}

-- A round of the loop of `Run`.
unfoldable pub step : (grow : ℕ → ℕ) → Input → Spooler → List Choice → Outcome
unfolding and_then
step grow flush s cs = if leb 1 (length s.spool) then send_spool cs s else going s cs
step grow (event e now) s cs =
    if leb 1 (length s.spool)
      && leb s.config.spool_max_bytes (s.spool_size + length e.payload + event_header_size)
    then and_then (send_spool cs s) (λ sent rest. going (queue grow e (reset_timer now sent)) rest)
    else (let s' = queue grow e s in
        if leb s'.capacity (length s'.spool)
        then and_then (send_spool cs s') (λ sent rest. going (reset_timer now sent) rest)
        else going s' cs)
step grow (timeout now) s cs =
    and_then (if leb 1 (length s.spool) then send_spool cs s else going s cs)
      (λ sent rest. going (reset_timer now sent) rest)
step grow Input.shutdown s cs = stopped s
step grow (configure c now later) s cs = reload_config c now later s cs

-- The rounds of the loop, one for each input.
unfoldable pub run : (grow : ℕ → ℕ) → List Input → Spooler → List Choice → Outcome
unfolding and_then
run grow [] s cs = going s cs
run grow (input ∷ inputs) s cs = and_then (step grow input s cs) (run grow inputs)
