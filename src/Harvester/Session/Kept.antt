-- ===== src/Harvester/Session/Kept.antt =====
-- What a measurement of lc-lib/harvester/harvester.go leaves as it is.
use log_courier.Common.{
  ℕ, ◌⊎◌, ◌-◌, ◌≤◌, ◌<◌, ◌≡◌, refl, sym, ap, ◌∙◌, subst, inl, inr, Bool, true, false, ◌&&◌, List,
  Option, none, some, arith, leb, ltb, ◌==◌, if◌then◌else◌, if-Both, if-true, Option-cases,
}
use log_courier.Harvester.LineReader.{LineReader}
use log_courier.Harvester.Reading.{Harvester}
use log_courier.Harvester.Chain.{Codec}
use log_courier.Harvester.Fields.{Settings}
use log_courier.Harvester.Session.{
  FileInfo, Harvest, HarvestError, file_truncated, stop_requested, stat_failed, read_failed, Moment,
  stat_check, check_stale, measured, periodic, measure_rest, take_measurements, measure,
}

-- What the events of a harvester depend on.
abbrev pub Core : Type 0
Core = Harvester × LineReader × Codec × List Codec × Settings × ℕ × ℕ × ℕ

abbrev pub core : Harvest → Core
core h = (
  h.reading, h.reader, h.codec, h.codec_chain, h.settings, h.stream, h.last_read_time, h.dead_time,
)

pub check_stale-core : (blocked : Bool) (h : Harvest) → core (check_stale blocked h) ≡ core h
unfolding check_stale
check_stale-core blocked h = if-Both (λ x. core x ≡ core h) _ _ _ (λ e. refl) (λ e. refl)

-- A measurement with its checks, where both are due for a file.
pub measure-due :
    (m : Moment) (blocked : Bool) (known : FileInfo) (h : Harvest)
    → h.fileinfo ≡ some known
    → 1000 ≤ m.now - h.last_measurement
    → 10000 ≤ m.now - h.last_check
    → measure m blocked h
      ≡ measure_rest m (
          stat_check m known
            (check_stale blocked (record h { last_measurement = m.now; last_check = m.now })))
unfolding measure take_measurements periodic
measure-due m blocked known h file measures checks =
    let h' = check_stale blocked (record h { last_measurement = m.now; last_check = m.now }) in
    if-true (leb 1000 (m.now - h.last_measurement)) _ _ (ground (arith, measures))
    ∙ ap (measure_rest m) (
        if-true (leb 10000 (m.now - h.last_check)) _ _ (ground (arith, checks))
        ∙ ap (λ i. elim i [ none ↦ (h', none) | some k ↦ stat_check m k h' ]) file)

-- The reasons that a measurement has for its result, with what holds of each result.
module _ (P : Option HarvestError → Type 0) (m : Moment) where
  pub record Reasons (c : Core) : Type 0 where
    pub none_found : P none
    pub no_stat : m.stat ≡ none → P (some stat_failed)
    pub shorter :
        (info : FileInfo) → m.stat ≡ some info → info.size < c.0.offset → P (some file_truncated)
    pub dead : c.7 < m.now - c.6 → P (some stop_requested)
    pub stopped : m.stopping ≡ true → P (some stop_requested)

  abbrev pub Keeps : Harvest → Harvest × Option HarvestError → Type 0
  Keeps h (h', err) = (core h' ≡ core h) × P err

  stat_check-Keeps :
      (known : FileInfo) (h : Harvest) → Reasons (core h) → Keeps h (stat_check m known h)
  unfolding stat_check
  stat_check-Keeps known h why = elim (Option-cases m.stat) [
    | inl n ↦ rw (n, stat_check) (refl, why.no_stat n)
    | inr (info, e) ↦
        let over =
          ltb h.dead_time (m.now - h.last_read_time) && (known.mod_time == info.mod_time) in
        let stops : Harvest × Option HarvestError = (h, some stop_requested) in
        let goes : Harvest × Option HarvestError = (record h { fileinfo = some info }, none) in
        rw (e, stat_check)
          (if-Both (Keeps h) (ltb info.size h.reading.offset) (h, some file_truncated)
            (if over then stops else goes) (λ short. (refl, why.shorter info e (ground arith)))
            (λ long.
              if-Both (Keeps h) over stops goes (λ d. (refl, why.dead (ground arith)))
                (λ d. (refl, why.none_found))))
  ]

  periodic-Keeps :
      (blocked : Bool) (h : Harvest) → Reasons (core h) → Keeps h (periodic m blocked h)
  unfolding periodic
  periodic-Keeps blocked h why =
      let same = check_stale-core blocked (record h { last_check = m.now }) in
      elim (Option-cases h.fileinfo) [
        | inl n ↦ rw (n, periodic) (same, why.none_found)
        | inr (known, e) ↦
            let h' = check_stale blocked (record h { last_check = m.now }) in
            let (k, t) = stat_check-Keeps known h' (subst Reasons (sym same) why) in
            rw (e, periodic) (k ∙ same, t)
      ]

  measure_rest-Keeps :
      (h : Harvest) (r : Harvest × Option HarvestError)
      → Reasons (core h)
      → Keeps h r
      → Keeps h (measure_rest m r)
  unfolding measure_rest measured
  measure_rest-Keeps h (h', some e) why k = k
  measure_rest-Keeps h (h', none) why (k, t) =
      (k, if-Both P m.stopping (some stop_requested) none why.stopped (λ e. t))

  -- A measurement changes nothing that the events depend on, and its result has one of its reasons.
  pub measure-Keeps :
      (blocked : Bool) (h : Harvest) → Reasons (core h) → Keeps h (measure m blocked h)
  unfolding measure take_measurements
  measure-Keeps blocked h why =
      let h' = record h { last_measurement = m.now } in
      let long = leb 10000 (m.now - h.last_check) in
      let checked = if long then periodic m blocked h' else (h', none) in
      if-Both (Keeps h) (leb 1000 (m.now - h.last_measurement)) (measure_rest m checked) (h, none)
        (λ due. measure_rest-Keeps h checked why (
          if-Both (Keeps h) long (periodic m blocked h') (h', none)
            (λ e. periodic-Keeps blocked h' why) (λ e. (refl, why.none_found))))
        (λ early. (refl, why.none_found))

-- A file that is not shorter than what was read.
abbrev pub IsWhole : ℕ → Moment → Type 0
IsWhole offset m = (info : FileInfo) → m.stat ≡ some info → offset ≤ info.size

-- Why a measurement of such a file ends a harvester: the stop signal, the dead time, or the file's
-- status cannot be read.
abbrev pub Why : Moment → Core → Option HarvestError → Type 0
Why m c none = Unit {0}
Why m c (some stop_requested) = (m.stopping ≡ true) ⊎ (c.7 < m.now - c.6)
Why m c (some stat_failed) = m.stat ≡ none
Why m c (some file_truncated) = true ≡ false
Why m c (some read_failed) = true ≡ false

pub measure-IsWhole :
    (m : Moment) (blocked : Bool) (h : Harvest)
    → IsWhole h.reading.offset m
    → (core (measure m blocked h).0 ≡ core h) × Why m (core h) (measure m blocked h).1
measure-IsWhole m blocked h whole = measure-Keeps (Why m (core h)) m blocked h record {
  none_found = tt;
  no_stat = λ e. e;
  shorter = λ info e short. absurd (omega (arith, whole info e, short));
  dead = λ d. inr d;
  stopped = λ e. inl e;
}
