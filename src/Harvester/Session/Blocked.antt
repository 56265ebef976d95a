-- ===== src/Harvester/Session/Blocked.antt =====
-- An event that waits for the output (lc-lib/harvester/harvester.go, eventCallback).
use log_courier.Common.{
  ℕ, ◌+◌, ◌-◌, ◌≤◌, ◌<◌, ◌≡◌, refl, ap, ◌∙◌, true, false, ◌&&◌, List, [], ◌∷◌, Option, some, arith,
  ltb, ◌==◌, if◌then◌else◌, if-true, if-false,
}
use log_courier.Core.{EventDescriptor}
use log_courier.Codecs.Plain.{event as plain_event}
use log_courier.Harvester.Chain.{plain, teardown, event, events, through}
use log_courier.Harvester.Fields.{Event, make_event}
use log_courier.Harvester.Session.{
  FileInfo, Harvest, stop_requested, Moment, Signal, ticks, stat_check, check_stale, measure_rest,
  measure, is_stop, event_loop, event_callback, event_callbacks, send_line,
}
use log_courier.Harvester.Session.Kept.{core, check_stale-core, measure-due}
use log_courier.Harvester.Session.Delivery.{IsPlain, Encodes}

-- A tick that gives no reason to stop: no stop signal, and the last line was read within the dead time.
abbrev pub IsQuiet : Harvest → Moment → Type 0
IsQuiet h m = (m.stopping ≡ false) × (m.now ≤ h.last_read_time + h.dead_time)

abbrev pub AllQuiet : Harvest → List Moment → Type 0
AllQuiet h [] = Unit {0}
AllQuiet h (m ∷ ms) = IsQuiet h m × AllQuiet h ms

-- A tick of the meter when the dead time has passed since the last line, for a file that did not change.
pub record IsDead (m : Moment) (known info : FileInfo) (h : Harvest) : Type 0 where
  pub file : h.fileinfo ≡ some known
  pub stat : m.stat ≡ some info
  pub whole : h.reading.offset ≤ info.size
  pub unchanged : known.mod_time ≡ info.mod_time
  pub passed : h.dead_time < m.now - h.last_read_time
  pub measures : 1000 ≤ m.now - h.last_measurement
  pub checks : 10000 ≤ m.now - h.last_check

stat_check-IsDead :
    (m : Moment) (known info : FileInfo) (h h' : Harvest)
    → IsDead m known info h
    → core h' ≡ core h
    → stat_check m known h' ≡ (h', some stop_requested)
unfolding stat_check
stat_check-IsDead m known info h h' d same =
    let offset = ap (λ t. t.0.offset) same in
    let read = ap (λ t. t.6) same in
    let time = ap (λ t. t.7) same in
    rw (d.stat, stat_check)
      (if-false (ltb info.size h'.reading.offset) _ _ (ground (arith, d.whole))
        ∙ if-true
            (ltb h'.dead_time (m.now - h'.last_read_time) && (known.mod_time == info.mod_time)) _ _
            (ground (arith, d.passed, d.unchanged)))

measure-IsDead :
    (m : Moment) (known info : FileInfo) (h : Harvest)
    → IsDead m known info h
    → (h' : Harvest) × (measure m true h ≡ (h', some stop_requested)) × (core h' ≡ core h)
unfolding measure_rest
measure-IsDead m known info h d =
    let h₁ = record h { last_measurement = m.now; last_check = m.now } in
    let h₂ = check_stale true h₁ in
    let same = check_stale-core true h₁ in
    (
      h₂,
      measure-due m true known h d.file d.measures d.checks
          ∙ ap (measure_rest m) (stat_check-IsDead m known info h h₂ d same),
      same,
    )

event_loop-IsDead :
    (m : Moment) (known info : FileInfo) (signals : List Signal) (h : Harvest)
    (desc : EventDescriptor)
    → IsDead m known info h
    → (h' : Harvest) × (event_loop (ticks m ∷ signals) h desc ≡ some (h', signals, []))
      × (core h' ≡ core h)
unfolding event_loop is_stop
event_loop-IsDead m known info signals h desc d =
    let (h', e, same) = measure-IsDead m known info h d in
    (
      h',
      ap
          (λ r.
            let later = event_loop signals r.0 desc in
            if is_stop r.1 then some (r.0, signals, []) else later)
          e,
      same,
    )

-- The line is lost: where the output does not take its event before a tick that comes when the dead
-- time has passed since the line before, and finds the file unchanged, the call ends without an error,
-- nothing is sent, and the offset that the harvester resumes from is behind the line, although the
-- harvester goes on.
pub send_line-IsDead :
    (encode : Event → Option (List ℕ)) (now : ℕ) (m : Moment) (known info : FileInfo)
    (signals : List Signal) (h : Harvest) (text : List ℕ) (bytes : ℕ)
    → Encodes encode
    → IsPlain h
    → IsDead m known info h
    → h.reading.offset + bytes ≤ info.size
    → (h' : Harvest) × (send_line encode now (ticks m ∷ signals) h text bytes ≡ some (h', []))
      × (h'.reading.offset ≡ h.reading.offset + bytes)
      × (teardown h'.codec ≡ h.reading.offset + bytes)
unfolding send_line through events event plain_event event_callbacks event_callback teardown
send_line-IsDead encode now m known info signals h text bytes total p d fits =
    let end = h.reading.offset + bytes in
    let (payload, q) = total (
      make_event h.settings h.reading.split
        (record { start_offset = h.reading.offset; end_offset = end; text = text })) in
    let h₁ : Harvest = record h {
      reading = record h.reading { offset = end; split = false };
      codec = plain (record { last_offset = end });
      codec_chain = [];
    } in
    let (h₂, e, same) =
      event_loop-IsDead m known info signals h₁
        (record { stream = h.stream; offset = end; payload = payload })
        record {
          file = d.file;
          stat = d.stat;
          whole = fits;
          unchanged = d.unchanged;
          passed = d.passed;
          measures = d.measures;
          checks = d.checks;
        } in
    (
      record h₂ {
        last_read_time = now;
        reading = record h₂.reading {
          line_count = h₂.reading.line_count + 1;
          byte_count = h₂.reading.byte_count + bytes;
        };
      },
      rw (p.codec, p.chain, send_line) (rw (q, event_callback) (rw e refl)),
      ap (λ t. t.0.offset) same,
      rw (ap (λ t. t.2) same) refl,
    )
