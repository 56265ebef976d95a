-- ===== src/Harvester/Session/Truncation.antt =====
-- A file that became shorter than what was read of it (lc-lib/harvester/harvester.go).
use log_courier.Common.{
  ℕ, ◌-◌, ◌≤◌, ◌<◌, ◌≡◌, refl, ap, ◌∙◌, false, List, [], Option, none, some, arith, ltb, if-true,
}
use log_courier.Harvester.LineReader.Input.{Reader}
use log_courier.Harvester.LineReader.{
  LineReader, ReadResult, flat, read_slice, reset as reset_reader,
}
use log_courier.Harvester.LineReader.Fill.{IsValid, held}
use log_courier.Harvester.LineReader.Calls.{held-reset}
use log_courier.Harvester.LineReader.Lines.{read_slice-Reads}
use log_courier.Codecs.Plain.{reset as plain_reset}
use log_courier.Harvester.Reading.{readline}
use log_courier.Harvester.Chain.{plain, teardown, reset}
use log_courier.Harvester.Fields.{Event}
use log_courier.Harvester.Session.{
  FileInfo, Harvest, file_truncated, Moment, stat_check, check_stale, measure_rest, measure,
}
use log_courier.Harvester.Session.Rounds.{Round, handle_truncation, dispatch, perform_read}
use log_courier.Harvester.Session.Kept.{core, check_stale-core, measure-due}
use log_courier.Harvester.Session.Resume.{readline-offset}

-- A measurement with its checks that finds the file shorter.
pub record IsShort (m : Moment) (known info : FileInfo) (h : Harvest) : Type 0 where
  pub file : h.fileinfo ≡ some known
  pub stat : m.stat ≡ some info
  pub shorter : info.size < h.reading.offset
  pub measures : 1000 ≤ m.now - h.last_measurement
  pub checks : 10000 ≤ m.now - h.last_check

stat_check-IsShort :
    (m : Moment) (known info : FileInfo) (h h' : Harvest)
    → IsShort m known info h
    → core h' ≡ core h
    → stat_check m known h' ≡ (h', some file_truncated)
unfolding stat_check
stat_check-IsShort m known info h h' d same =
    let offset = ap (λ t. t.0.offset) same in
    rw (d.stat, stat_check)
      (if-true (ltb info.size h'.reading.offset) _ _ (ground (arith, d.shorter)))

measure-IsShort :
    (m : Moment) (known info : FileInfo) (h : Harvest)
    → IsShort m known info h
    → (h' : Harvest) × (measure m false h ≡ (h', some file_truncated)) × (core h' ≡ core h)
unfolding measure_rest
measure-IsShort m known info h d =
    let h₁ = record h { last_measurement = m.now; last_check = m.now } in
    let h₂ = check_stale false h₁ in
    let same = check_stale-core false h₁ in
    (
      h₂,
      measure-due m false known h d.file d.measures d.checks
          ∙ ap (measure_rest m) (stat_check-IsShort m known info h h₂ d same),
      same,
    )

-- When a check finds the file shorter than what was read, and the first codec is the plain one at the
-- offset of the harvester, the call returns without an error: whatever it read is dropped and nothing
-- is sent, and the file is read from its beginning, with the offset 0. But what the line reader had put
-- aside of a long line is still there; the plain codec still resumes from the old offset; and the
-- codecs behind it, whatever they have buffered of the old file, are as they were.
pub perform_read-IsShort :
    (encode : Event → Option (List ℕ)) (r : Reader) (rewind : r.State → r.State) (round : Round)
    (known info : FileInfo) (h : Harvest) (s : r.State)
    → IsValid h.reader
    → h.codec ≡ plain (record { last_offset = h.reading.offset })
    → IsShort round.moment known info h
    → (s' : r.State) × (h' : Harvest) × (perform_read encode r rewind round h s
        ≡ some (rewind s', (h', [], none)))
      × (h'.reading.offset ≡ 0)
      × (teardown h'.codec ≡ h.reading.offset)
      × (h'.codec_chain ≡ h.codec_chain)
      × ((reader' : LineReader) × (res : ReadResult) × (read_slice r h.reader s
            ≡ some (reader', s', res))
          × (held h'.reader ≡ flat reader'.overflow))
unfolding perform_read dispatch handle_truncation teardown reset plain_reset
perform_read-IsShort encode r rewind round known info h s v p d =
    let (reader', s', res, e, v', good, kept, m) = read_slice-Reads r h.reader s v in
    let same = readline-offset h.reading res in
    let h₁ = record h { reader = reader'; reading = (readline h.reading res).0 } in
    let (h₂, q, k) = measure-IsShort round.moment known info h₁ record {
      file = d.file;
      stat = d.stat;
      shorter = omega (arith, d.shorter, same);
      measures = d.measures;
      checks = d.checks;
    } in
    (
      s',
      handle_truncation h₂,
      rw (e, perform_read)
          (ap (λ r'. dispatch encode r rewind round (readline h.reading res).1 s' r') q),
      refl,
      rw (ap (λ t. t.2) k ∙ p) refl,
      ap (λ t. t.3) k,
      (
        reader',
        res,
        e,
        ap (λ l. held (reset_reader l)) (ap (λ t. t.1) k) ∙ (held-reset reader' v').0,
      ),
    )
