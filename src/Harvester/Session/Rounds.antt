-- ===== src/Harvester/Session/Rounds.antt =====
-- From the start of a harvester to what it reports at its end (lc-lib/harvester/harvester.go).
use log_courier.Common.{
  ℕ, Bool, true, false, List, [], ◌∷◌, ◌++◌, Option, none, some, ◌==◌, if◌then◌else◌,
}
use log_courier.Core.{EventDescriptor}
use log_courier.Harvester.LineReader.Input.{Reader}
use log_courier.Harvester.LineReader.{new_line_reader, read_slice, reset as reset_reader}
use log_courier.Harvester.Reading.{ReadLine, read, at_end, broken, readline}
use log_courier.Harvester.Chain.{CodecFactory, teardown, reset, new_chain}
use log_courier.Harvester.Fields.{Event, Settings}
use log_courier.Harvester.Session.{
  FileInfo, Harvest, HarvestError, file_truncated, stop_requested, stat_failed, read_failed, Moment,
  Signal, measure, send_line,
}

-- `NewHarvester`: `none` is the panic of `make` where there is no codec. The reader and the times are set
-- when `harvest` begins.
unfoldable pub new_harvester :
    (stream : ℕ)
    → Option FileInfo
    → Settings
    → (dead_time now offset : ℕ) → List CodecFactory
    → Option Harvest
unfolding new_chain new_line_reader
new_harvester stream info settings dead_time now offset factories =
    elim (new_chain factories offset now) [
      | [] ↦ none
      | first ∷ others ↦ some (record {
        stream = stream;
        settings = settings;
        dead_time = dead_time;
        reading = record { offset = offset; split = false; line_count = 0; byte_count = 0 };
        reader = new_line_reader 0 0;
        codec = first;
        codec_chain = others;
        fileinfo = info;
        stale_offset = 0;
        stale_bytes = 0;
        last_stale_offset = 0;
        last_read_time = 0;
        last_measurement = 0;
        last_check = 0;
        last_line_count = 0;
        last_byte_count = 0;
        last_offset = 0;
        last_size = 0;
        last_eof = none;
      })
    ]

-- `Open` and `Stat` of the file, either of which may fail.
pub data Opening : Type 0 where
  not_opened no_stat : Opening
  opened : FileInfo → Opening

-- `prepareHarvester`: whether it gives no error. What is opened has to be the file that the
-- prospector found.
unfoldable pub prepare_harvester : Opening → Harvest → Harvest × Bool
prepare_harvester opening h = elim h.fileinfo [
  | none ↦ (h, true)
  | some known ↦ elim opening [
    | not_opened ↦ (h, false)
    | no_stat ↦ (h, false)
    | opened info ↦
        if info.id == known.id then (record h { fileinfo = some info }, true) else (h, false)
  ]
]

-- The beginning of `harvest`, once the file is open: `position` is the answer of `Seek`, if there is no
-- error.
unfoldable pub start_offset : (position : Option ℕ) → Harvest → Option ℕ
start_offset position h = elim h.fileinfo [ none ↦ some 0 | some info ↦ position ]

unfoldable pub begin_harvest :
    (line_buffer_bytes max_line_bytes now : ℕ) → (position : Option ℕ) → Harvest → Option Harvest
unfolding start_offset new_line_reader
begin_harvest line_buffer_bytes max_line_bytes now position h = elim (start_offset position h) [
  | none ↦ none
  | some offset ↦ some (record h {
    reading = record h.reading { offset = offset };
    reader = new_line_reader line_buffer_bytes max_line_bytes;
    last_read_time = now;
    last_measurement = now;
    last_check = now;
  })
]

-- `handleTruncation`: of the codecs only the first is reset.
unfoldable pub handle_truncation : Harvest → Harvest
unfolding reset reset_reader
handle_truncation h = record h {
  reading = record h.reading { offset = 0 };
  stale_offset = 0;
  last_stale_offset = 0;
  reader = reset_reader h.reader;
  codec = reset h.codec;
}

-- At the end of the file a stream is finished, and a file stops if it is told to.
unfoldable pub reach_end : (stopping : Bool) → Harvest → Harvest × Option HarvestError
reach_end stopping h = elim h.fileinfo [
  | none ↦ (h, some stop_requested)
  | some info ↦ (
    record h { last_eof = some (h.last_read_time, h.reading.offset) },
    if stopping then some stop_requested else none,
  )
]

-- What a call of `performRead` meets: the measurement after its read, what the output does, the clock
-- after the line, and whether the stop signal was given by the end of the call.
pub record Round : Type 0 where
  pub moment : Moment
  pub signals : List Signal
  pub now : ℕ
  pub stopping : Bool

-- A read that did not fail, with the descriptors sent and the error of the call.
abbrev pub Outcome : Type 0
Outcome = Harvest × List EventDescriptor × Option HarvestError

module _ (encode : Event → Option (List ℕ)) where
  unfoldable pub after_measure : Round → ReadLine → Harvest → Option Outcome
  unfolding send_line reach_end
  after_measure round (read text bytes) h =
      elim (send_line encode round.now round.signals h text bytes) [
        | none ↦ none
        | some (h', sent) ↦ some (h', sent, none)
      ]
  after_measure round at_end h = let (h', err) = reach_end round.stopping h in some (h', [], err)
  after_measure round broken h = some (h, [], some read_failed)

  module _ (r : Reader) (rewind : r.State → r.State) where
    open r use {State}

    -- What follows the measurement: on truncation the file is read from its beginning.
    unfoldable pub dispatch :
        Round → ReadLine → State → Harvest × Option HarvestError → Option (State × Outcome)
    unfolding after_measure handle_truncation
    dispatch round line s (h, none) = elim (after_measure round line h) [
      | none ↦ none
      | some outcome ↦ some (s, outcome)
    ]
    dispatch round line s (h, some file_truncated) =
        some (rewind s, (handle_truncation h, [], none))
    dispatch round line s (h, some stop_requested) = some (s, (h, [], some stop_requested))
    dispatch round line s (h, some stat_failed) = some (s, (h, [], some stat_failed))
    dispatch round line s (h, some read_failed) = some (s, (h, [], some read_failed))

    unfoldable pub perform_read : Round → Harvest → State → Option (State × Outcome)
    unfolding read_slice readline measure dispatch
    perform_read round h s = elim (read_slice r h.reader s) [
      | none ↦ none
      | some (reader', s', res) ↦
          let (reading', line) = readline h.reading res in
          dispatch round line s'
            (measure round.moment false (record h { reader = reader'; reading = reading' }))
    ]

    -- The loop of `harvest`, for as many rounds: the last error is `none` while it goes on.
    unfoldable pub harvest_loop : List Round → Harvest → State → Option (State × Outcome)
    unfolding perform_read
    harvest_loop [] h s = some (s, (h, [], none))
    harvest_loop (round ∷ rounds) h s = elim (perform_read round h s) [
      | none ↦ none
      | some (s', (h', sent, some e)) ↦ some (s', (h', sent, some e))
      | some (s', (h', sent, none)) ↦ elim (harvest_loop rounds h' s') [
        | none ↦ none
        | some (s'', (last, more, err)) ↦ some (s'', (last, sent ++ more, err))
      ]
    ]

-- What `FinishStatus` says; the stop that was asked for is no error.
pub record FinishStatus : Type 0 where
  pub last_event_offset : ℕ
  pub last_read_offset : ℕ
  pub error : Option HarvestError
  pub last_stat : Option FileInfo

unfoldable pub reported : HarvestError → Option HarvestError
reported stop_requested = none
reported file_truncated = some file_truncated
reported stat_failed = some stat_failed
reported read_failed = some read_failed

-- The end of `harvest`, once the loop met this error.
unfoldable pub finish : Harvest → HarvestError → FinishStatus
unfolding teardown reported
finish h e = record {
  last_event_offset = teardown h.codec;
  last_read_offset = h.reading.offset;
  error = reported e;
  last_stat = h.fileinfo;
}
