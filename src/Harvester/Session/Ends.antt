-- ===== src/Harvester/Session/Ends.antt =====
-- How far the loop of lc-lib/harvester/harvester.go comes: it goes on, one read for each round, or it
-- has a reason to end.
use log_courier.Common.{
  ℕ, ◌≡◌, refl, sym, ap, ◌∙◌, ◌⊎◌, inl, inr, true, false, List, [], ◌∷◌, Option, none, some, length,
  Option-cases,
}
use log_courier.Harvester.LineReader.Input.{Reader, other}
use log_courier.Harvester.LineReader.{LineReader, ReadResult, failed, read_slice}
use log_courier.Harvester.LineReader.Calls.{read_slices}
use log_courier.Harvester.Session.{
  Harvest, HarvestError, file_truncated, stop_requested, stat_failed, read_failed,
}
use log_courier.Harvester.Session.Rounds.{Round}
use log_courier.Harvester.Session.Kept.{core, Why}

module _ (r : Reader) where
  open r use {State}

  -- The harvester is stopped, its last line is older than the dead time, or it reads standard input,
  -- which has ended; the status of its file cannot be read; or its file cannot.
  abbrev pub StopsAt : Round → Harvest → HarvestError → Type 0
  StopsAt round h stop_requested =
      Why round.moment (core h) (some stop_requested)
      ⊎ ((round.stopping ≡ true) ⊎ (h.fileinfo ≡ none))
  StopsAt round h stat_failed = Why round.moment (core h) (some stat_failed)
  StopsAt round h read_failed =
      (lr : LineReader) × (s : State) × (lr' : LineReader) × (s' : State) × (read_slice r lr s
        ≡ some (lr', s', failed other))
  StopsAt round h file_truncated = true ≡ false

  abbrev pub StopsIn : List Round → Harvest → HarvestError → Type 0
  StopsIn [] h e = true ≡ false
  StopsIn (round ∷ rounds) h e = StopsAt round h e ⊎ StopsIn rounds h e

  abbrev pub ReadsTo : ℕ → LineReader → State → LineReader → State → Type 0
  ReadsTo n lr s lr' s' =
      (results : List ReadResult) × (read_slices r n lr s ≡ some (lr', s', results))

  -- The rounds, with the reader and the file before them.
  abbrev pub Calls : Type 0
  Calls = List Round × LineReader × State

  abbrev pub Ends : Calls → Option HarvestError → State → Harvest → Type 0
  Ends (rounds, lr, s) none s' h = ReadsTo (length rounds) lr s h.reader s'
  Ends (rounds, lr, s) (some e) s' h = StopsIn rounds h e

  pub ReadsTo-one :
      (lr lr' : LineReader) (s s' : State) (res : ReadResult)
      → read_slice r lr s ≡ some (lr', s', res)
      → ReadsTo 1 lr s lr' s'
  unfolding read_slices
  ReadsTo-one lr lr' s s' res e = (res ∷ [], rw (e, read_slices) refl)

  Ends-cons :
      (round : Round) (rounds : List Round) (lr lr' : LineReader) (s s' s'' : State)
      (res : ReadResult) (err : Option HarvestError) (h : Harvest)
      → read_slice r lr s ≡ some (lr', s', res)
      → Ends (rounds, lr', s') err s'' h
      → Ends (round ∷ rounds, lr, s) err s'' h
  unfolding read_slices
  Ends-cons round rounds lr lr' s s' s'' res none h e (results, t) =
      (res ∷ results, rw (e, read_slices) (rw t refl))
  Ends-cons round rounds lr lr' s s' s'' res (some x) h e t = inr t

  ReadsTo-read_slice :
      (lr lr' : LineReader) (s s' : State)
      → ReadsTo 1 lr s lr' s'
      → (res : ReadResult) × (read_slice r lr s ≡ some (lr', s', res))
  unfolding read_slices
  ReadsTo-read_slice lr lr' s s' (results, e) = elim (Option-cases (read_slice r lr s)) [
    | inl n ↦
        let q : ◌≡◌ {A = Option (LineReader × State × List ReadResult)} none
            (some (lr', s', results)) =
          sym (ap (λ o. elim o [ none ↦ none | some (a, b, c) ↦ some (a, b, c ∷ []) ]) n) ∙ e in
        cc
    | inr ((a, b, c), n) ↦
        let q : ◌≡◌ {A = Option (LineReader × State × List ReadResult)} (some (a, b, c ∷ []))
            (some (lr', s', results)) =
          sym (ap (λ o. elim o [ none ↦ none | some (x, y, z) ↦ some (x, y, z ∷ []) ]) n) ∙ e in
        let reader : a ≡ lr' = cc in
        let file : b ≡ s' = cc in
        (c, n ∙ ap (λ x. some (x, b, c)) reader ∙ ap (λ y. some (lr', y, c)) file)
  ]

  pub Ends-trans :
      (round : Round) (rounds : List Round) (lr lr' : LineReader) (s s' s'' : State)
      (err : Option HarvestError) (h : Harvest)
      → ReadsTo 1 lr s lr' s'
      → Ends (rounds, lr', s') err s'' h
      → Ends (round ∷ rounds, lr, s) err s'' h
  Ends-trans round rounds lr lr' s s' s'' err h one t =
      let (res, e) = ReadsTo-read_slice lr lr' s s' one in
      Ends-cons round rounds lr lr' s s' s'' res err h e t

  pub StopsIn-first :
      (round : Round) (rounds : List Round) (h : Harvest) (e : HarvestError)
      → StopsIn (round ∷ []) h e
      → StopsIn (round ∷ rounds) h e
  StopsIn-first round rounds h e (inl x) = inl x
  StopsIn-first round rounds h e (inr x) = cc
