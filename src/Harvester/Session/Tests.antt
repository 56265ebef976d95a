-- ===== src/Harvester/Session/Tests.antt =====
-- Harvesters of lc-lib/harvester/harvester.go on concrete files.
use log_courier.Common.{
  ℕ, pos, ◌≡◌, refl, true, false, List, [], ◌∷◌, Option, none, some, arith, lookup, string_eq, ◌&&◌,
  if◌then◌else◌,
}
use log_courier.Core.{EventDescriptor}
use log_courier.Codecs.{Text, Emitted}
use log_courier.Harvester.LineReader.{LineReader, ReadResult, new_line_reader, flat, read_slice}
use log_courier.Harvester.LineReader.Calls.{new_line_reader-IsValid}
use log_courier.Harvester.LineReader.Fill.{IsValid, held}
use log_courier.Harvester.LineReader.Tests.{stream, text as bytes}
use log_courier.Codecs.Multiline.{What}
use log_courier.Harvester.Chain.{Codec, plain, multiline, teardown}
use log_courier.Harvester.Fields.{Value, text, number, strings, opaque, Event, Settings, make_event}
use log_courier.Harvester.Fields.Lookups.{is, found, tags_of, lookup-make_event}
use log_courier.Harvester.Session.{FileInfo, Harvest, Moment, sends, ticks, send_line}
use log_courier.Harvester.Session.Rounds.{Round, perform_read}
use log_courier.Harvester.Session.Delivery.{IsPlain, Encodes}
use log_courier.Harvester.Session.Blocked.{send_line-IsDead}
use log_courier.Harvester.Session.Truncation.{perform_read-IsShort}

-- The text of an event, for its encoding.
abbrev text_of : Option Value → Text
text_of (some (text t)) = t
text_of (some (number n)) = []
text_of (some (strings ts)) = []
text_of (some (opaque n)) = []
text_of none = []

abbrev encode : Event → Option Text
encode event = some (text_of (lookup "message" event))

encode-Encodes : Encodes encode
encode-Encodes event = (text_of (lookup "message" event), refl)

abbrev settings : Settings
settings = record {
  host = 104 ∷ [];
  path = 112 ∷ [];
  timezone = [];
  add_host_field = true;
  add_path_field = true;
  add_offset_field = true;
  add_timezone_field = false;
  global_fields = ("tags", strings ((97 ∷ []) ∷ [])) ∷ [];
  fields = ("path", number 5) ∷ [];
}

abbrev info : FileInfo
info = record { id = 1; size = 1000; mod_time = 7 }

abbrev start : Harvest
start = record {
  stream = 3;
  settings = settings;
  dead_time = 20000;
  reading = record { offset = 10; split = false; line_count = 0; byte_count = 0 };
  reader = new_line_reader 3 5;
  codec = plain (record { last_offset = 10 });
  codec_chain = [];
  fileinfo = some info;
  stale_offset = 0;
  stale_bytes = 0;
  last_stale_offset = 0;
  last_read_time = 0;
  last_measurement = 0;
  last_check = 0;
  last_line_count = 0;
  last_byte_count = 0;
  last_offset = 0;
  last_size = 0;
  last_eof = none;
}

start-IsPlain : IsPlain start
start-IsPlain = record { codec = refl; chain = refl }

start-IsValid : IsValid start.reader
start-IsValid = new_line_reader-IsValid 3 5 (omega arith) (omega arith)

abbrev at : ℕ → Option FileInfo → Moment
at now stat = record { now = now; stat = stat; stopping = false }

abbrev turn : ℕ → Option FileInfo → Round
turn now stat = record { moment = at now stat; signals = sends ∷ []; now = now; stopping = false }

abbrev turns : List Round
turns = turn 500 none ∷ turn 11000 (some info) ∷ turn 11500 none ∷ []

abbrev desc : EventDescriptor
desc = record { stream = 3; offset = 12; payload = 97 ∷ [] }

send_line-IsDead_example :
    (h' : Harvest) × (send_line encode 30000
        (ticks (at 30000 (some info)) ∷ sends ∷ [])
        start
        (97 ∷ [])
        2
      ≡ some (h', []))
    × (h'.reading.offset ≡ 12)
    × (teardown h'.codec ≡ 12)
send_line-IsDead_example =
    send_line-IsDead encode 30000 (at 30000 (some info)) info info (sends ∷ []) start (97 ∷ []) 2
      encode-Encodes start-IsPlain
      record {
        file = refl;
        stat = refl;
        whole = omega arith;
        unchanged = refl;
        passed = omega arith;
        measures = omega arith;
        checks = omega arith;
      }
      (omega arith)

abbrev shorter : FileInfo
shorter = record { id = 1; size = 4; mod_time = 9 }

-- A multiline codec behind the plain one, with a line of the old file in its buffer.
abbrev buffered : Codec
buffered = multiline (record {
  config = record {
    patterns = record { patterns = []; required_matches = 0 };
    what = What.previous;
    previous_timeout = 0;
    max_multiline_bytes = 100;
  };
  last_offset = 2;
  end_offset = 10;
  start_offset = 2;
  buffer = (97 ∷ 98 ∷ []) ∷ [];
  buffer_lines = 1;
  buffer_len = 2;
  timer_deadline = 0;
  meter_lines = 0;
  meter_bytes = pos 0;
})

abbrev chained : Harvest
chained = record start { codec_chain = buffered ∷ [] }

perform_read-IsShort_example :
    (s' : List ℕ) × (h' : Harvest) × (perform_read encode stream
        (λ s. bytes)
        (turn 11000 (some shorter))
        chained
        bytes
      ≡ some (bytes, (h', [], none)))
    × (h'.reading.offset ≡ 0)
    × (teardown h'.codec ≡ 10)
    × (h'.codec_chain ≡ buffered ∷ [])
    × ((reader' : LineReader) × (res : ReadResult) × (read_slice stream (new_line_reader 3 5) bytes
          ≡ some (reader', s', res))
        × (held h'.reader ≡ flat reader'.overflow))
perform_read-IsShort_example =
    perform_read-IsShort encode stream (λ s. bytes) (turn 11000 (some shorter)) info shorter chained
      bytes start-IsValid refl
      record {
        file = refl;
        stat = refl;
        shorter = omega arith;
        measures = omega arith;
        checks = omega arith;
      }

abbrev emitted : Emitted
emitted = record { start_offset = 10; end_offset = 12; text = 97 ∷ [] }

lookup-make_event_example : lookup "path" (make_event settings true emitted) ≡ (
    if is "tags" "path" && true
    then tags_of (found settings emitted "tags")
    else found settings emitted "path")
unfolding lookup
lookup-make_event_example = lookup-make_event settings true emitted "path" (refl, tt) (refl, tt)
