-- ===== src/Harvester/Session.antt =====
-- The routine of a harvester (lc-lib/harvester/harvester.go): its reads, measurements and stops. Times
-- are in milliseconds. Whatever happens outside is an input: the file, what `Stat` gives, the stop
-- signal and the moments at which the output takes an event. The speeds, which are floats for the
-- administration alone, are not modelled.
pub mod Rounds
pub mod Kept
pub mod Ends
pub mod Delivery
pub mod Resume
pub mod Blocked
pub mod Truncation
mod Tests
use log_courier.Common.{
  ℕ, ◌+◌, ◌-◌, Bool, true, false, not, ◌&&◌, List, [], ◌∷◌, ◌++◌, Option, none, some, leb, ltb,
  ◌==◌, if◌then◌else◌,
}
use log_courier.Core.{EventDescriptor}
use log_courier.Codecs.{Emitted}
use log_courier.Harvester.LineReader.Input.{Reader}
use log_courier.Harvester.LineReader.{
  LineReader, ReadResult, buffered_len, new_line_reader, read_slice, reset as reset_reader,
}
use log_courier.Harvester.Reading.{Harvester, ReadLine, read, at_end, broken, readline}
use log_courier.Harvester.Chain.{Codec, CodecFactory, teardown, reset, through, new_chain}
use log_courier.Harvester.Fields.{Event, Settings, make_event}

pub record FileInfo : Type 0 where
  pub id : ℕ
  pub size : ℕ
  pub mod_time : ℕ

-- `fileinfo` is nil for standard input alone (`isStream`). `last_eof` is the time and the offset of the
-- last end of the file.
pub record Harvest : Type 0 where
  pub stream : ℕ
  pub settings : Settings
  pub dead_time : ℕ
  pub reading : Harvester
  pub reader : LineReader
  pub codec : Codec
  pub codec_chain : List Codec
  pub fileinfo : Option FileInfo
  pub stale_offset : ℕ
  pub stale_bytes : ℕ
  pub last_stale_offset : ℕ
  pub last_read_time : ℕ
  pub last_measurement : ℕ
  pub last_check : ℕ
  pub last_line_count : ℕ
  pub last_byte_count : ℕ
  pub last_offset : ℕ
  pub last_size : ℕ
  pub last_eof : Option (ℕ × ℕ)

-- The errors that end a harvester, and the one that starts the file anew.
pub data HarvestError : Type 0 where
  file_truncated stop_requested stat_failed read_failed : HarvestError

-- What a call of `takeMeasurements` finds.
pub record Moment : Type 0 where
  pub now : ℕ
  pub stat : Option FileInfo
  pub stopping : Bool

-- `statCheck`, for a file with this `fileinfo`.
unfoldable pub stat_check : Moment → FileInfo → Harvest → Harvest × Option HarvestError
stat_check m known h = elim m.stat [
  | none ↦ (h, some stat_failed)
  | some info ↦
      if ltb info.size h.reading.offset
      then (h, some file_truncated)
      else if ltb h.dead_time (m.now - h.last_read_time) && (known.mod_time == info.mod_time)
      then (h, some stop_requested)
      else (record h { fileinfo = some info }, none)
]

unfoldable pub check_stale : (is_pipeline_blocked : Bool) → Harvest → Harvest
unfolding buffered_len
check_stale is_pipeline_blocked h =
    let offset = h.reading.offset in
    let buffered = buffered_len h.reader in
    if not is_pipeline_blocked && not (buffered == 0)
    then record h {
      last_stale_offset =
          if (h.stale_offset == offset) && not (h.last_stale_offset == offset + buffered)
          then offset + buffered
          else h.last_stale_offset;
      stale_offset = offset;
    }
    else h

unfoldable pub known_size : Option FileInfo → ℕ → ℕ
known_size none last = last
known_size (some info) last = info.size

-- What is stored for the administration.
unfoldable pub measured : Harvest → Harvest
unfolding known_size
measured h =
    let offset = h.reading.offset in
    let size = known_size h.fileinfo h.last_size in
    record h {
      last_byte_count = h.reading.byte_count;
      last_line_count = h.reading.line_count;
      last_offset = offset;
      last_size = if ltb size offset then offset else size;
      stale_bytes = if ltb offset h.last_stale_offset then h.last_stale_offset - offset else 0;
    }

-- The checks that are due every ten seconds; a stream has no `Stat`.
unfoldable pub periodic : Moment → Bool → Harvest → Harvest × Option HarvestError
unfolding check_stale stat_check
periodic m is_pipeline_blocked h =
    let h' = check_stale is_pipeline_blocked (record h { last_check = m.now }) in
    elim h.fileinfo [ none ↦ (h', none) | some known ↦ stat_check m known h' ]

-- The end of `takeMeasurements`.
unfoldable pub measure_rest : Moment → Harvest × Option HarvestError → Harvest × Option HarvestError
unfolding measured
measure_rest m (h, some e) = (h, some e)
measure_rest m (h, none) = (measured h, if m.stopping then some stop_requested else none)

unfoldable pub take_measurements : Moment → Bool → Harvest → Harvest × Option HarvestError
unfolding periodic measure_rest
take_measurements m is_pipeline_blocked h =
    let h' = record h { last_measurement = m.now } in
    measure_rest m
      (if leb 10000 (m.now - h.last_check) then periodic m is_pipeline_blocked h' else (h', none))

-- A second at least since the last measurement.
unfoldable pub measure : Moment → Bool → Harvest → Harvest × Option HarvestError
unfolding take_measurements
measure m is_pipeline_blocked h =
    if leb 1000 (m.now - h.last_measurement)
    then take_measurements m is_pipeline_blocked h
    else (h, none)

-- What ends a wait of `eventCallback`, or the tick of its meter.
pub data Signal : Type 0 where
  stops sends : Signal
  ticks : Moment → Signal

unfoldable pub is_stop : Option HarvestError → Bool
is_stop none = false
is_stop (some stop_requested) = true
is_stop (some file_truncated) = false
is_stop (some stat_failed) = false
is_stop (some read_failed) = false

-- The loop of `eventCallback`: the signals that remain and what went to the output. A result `none` is
-- a wait that does not end.
unfoldable pub event_loop :
    List Signal → Harvest → EventDescriptor → Option (Harvest × List Signal × List EventDescriptor)
unfolding measure is_stop
event_loop [] h desc = none
event_loop (stops ∷ signals) h desc = some (h, signals, [])
event_loop (sends ∷ signals) h desc = some (h, signals, desc ∷ [])
event_loop (ticks m ∷ signals) h desc =
    let (h', err) = measure m true h in
    let later = event_loop signals h' desc in if is_stop err then some (h', signals, []) else later

module _ (encode : Event → Option (List ℕ)) where
  -- `Encode` of an event may fail, and then it is skipped.
  unfoldable pub event_callback :
      List Signal → Harvest → Emitted → Option (Harvest × List Signal × List EventDescriptor)
  unfolding make_event event_loop
  event_callback signals h e =
      let h' = record h { reading = record h.reading { split = false } } in
      elim (encode (make_event h.settings h.reading.split e)) [
        | none ↦ some (h', signals, [])
        | some payload ↦
            event_loop signals h'
              (record { stream = h.stream; offset = e.end_offset; payload = payload })
      ]

  unfoldable pub event_callbacks :
      List Signal → Harvest → List Emitted → Option (Harvest × List Signal × List EventDescriptor)
  unfolding event_callback
  event_callbacks signals h [] = some (h, signals, [])
  event_callbacks signals h (e ∷ es) = elim (event_callback signals h e) [
    | none ↦ none
    | some (h', signals', sent) ↦ elim (event_callbacks signals' h' es) [
      | none ↦ none
      | some (last, left, more) ↦ some (last, left, sent ++ more)
    ]
  ]

  -- A line through the codecs to the output, with the offsets that it has.
  unfoldable pub send_line :
      (now : ℕ) → List Signal → Harvest → List ℕ → ℕ → Option (Harvest × List EventDescriptor)
  unfolding event_callbacks through
  send_line now signals h text bytes =
      let start = h.reading.offset in
      let h' = record h { reading = record h.reading { offset = start + bytes } } in
      let e : Emitted = record { start_offset = start; end_offset = start + bytes; text = text } in
      elim (through now (h.codec ∷ h.codec_chain) (e ∷ [])) [
        | none ↦ none
        | some ([], es) ↦ none
        | some (first ∷ others, es) ↦
            elim (event_callbacks signals (record h' { codec = first; codec_chain = others }) es) [
              | none ↦ none
              | some (last, left, sent) ↦ some (
                record last {
                  last_read_time = now;
                  reading = record last.reading {
                    line_count = last.reading.line_count + 1;
                    byte_count = last.reading.byte_count + bytes;
                  };
                },
                sent,
              )
            ]
      ]
