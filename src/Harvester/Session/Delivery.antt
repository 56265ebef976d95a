-- ===== src/Harvester/Session/Delivery.antt =====
-- The events of lc-lib/harvester/harvester.go where its codec is plain: from the bytes of the file to the
-- descriptors at the output, and to the offset from which a later harvester resumes.
use log_courier.Common.{
  ℕ, ◌+◌, ◌≡◌, refl, sym, ap, ◌∙◌, subst, inl, inr, Option-cases, if◌then◌else◌, Bool, true, false,
  List, [], ◌∷◌, ◌++◌, Option, none, some, arith, length, length-append, length-take, take, drop,
  ltb, ◌-◌, ◌≤◌, ◌&&◌, ◌==◌, if-Both,
}
use log_courier.Core.{EventDescriptor}
use log_courier.Codecs.{Emitted}
use log_courier.Codecs.Multiline.Shipping.{Tiles}
use log_courier.Codecs.Plain.{event as plain_event}
use log_courier.Harvester.LineReader.Input.{Reader, eof, other}
use log_courier.Harvester.LineReader.{LineReader, read_slice, ReadResult, line, too_long, failed}
use log_courier.Harvester.LineReader.Fill.{IsValid, held}
use log_courier.Harvester.LineReader.Lines.{IsGood, bytes_of}
use log_courier.Harvester.Reading.{ReadLine, readline, newline, carriage_return}
use log_courier.Harvester.Reading as Reading
use log_courier.Harvester.Reading.Endings.{Restores, good-Restores}
use log_courier.Harvester.Chain.{plain, teardown, event, events, through}
use log_courier.Harvester.Fields.{Event, Settings, make_event}
use log_courier.Harvester.Session.{
  Harvest, HarvestError, file_truncated, stop_requested, stat_failed, read_failed, sends,
  event_loop, event_callback, event_callbacks, send_line,
}
use log_courier.Harvester.Session.Rounds.{Round, Outcome, after_measure, reach_end, dispatch}
use log_courier.Harvester.Session.Kept.{core, Why}
use log_courier.Harvester.Session.Ends.{StopsIn, Calls, Ends, ReadsTo-one}

-- A line that the output took.
abbrev sent_line : (now : ℕ) → Harvest → (bytes : ℕ) → Harvest
sent_line now h bytes = record h {
  reading = record {
    offset = h.reading.offset + bytes;
    split = false;
    line_count = h.reading.line_count + 1;
    byte_count = h.reading.byte_count + bytes;
  };
  codec = plain (record { last_offset = h.reading.offset + bytes });
  codec_chain = [];
  last_read_time = now;
}

-- The codec is the plain one, alone, and its offset is the harvester's.
pub record IsPlain (h : Harvest) : Type 0 where
  pub codec : h.codec ≡ plain (record { last_offset = h.reading.offset })
  pub chain : h.codec_chain ≡ []

-- Between two calls: a line may be as long as the limit, and no part of one waits to be tagged.
pub record IsReady (limit : ℕ) (h : Harvest) : Type 0 where
  pub max_line : h.reader.max_line ≡ limit
  pub unsplit : h.reading.split ≡ false

-- An event that has all the bytes between its offsets is a part of a line.
abbrev pub is_split : Emitted → Bool
is_split e = e.start_offset + length e.text == e.end_offset

abbrev pub is_part : ReadResult → Bool
is_part (line text) = false
is_part (too_long text) = true
is_part (failed e) = false

newline_takes : (text : List ℕ) → 1 ≤ newline text
unfolding newline
newline_takes text =
    if-Both (λ n. 1 ≤ n) (ltb 1 (length text) && carriage_return (drop (length text - 2) text)) 2 1
      (λ e. omega arith) (λ e. omega arith)

-- A line without its ending is shorter.
line-is_split :
    (start : ℕ) (body text : List ℕ)
    → text ≡ body ++ b'\n' ∷ []
    → (start + length (take (length text - newline text) text) == start + length text) ≡ false
line-is_split start body text e =
    let l : length text ≡ length body + 1 =
      ap length e ∙ omega (arith, length-append body (b'\n' ∷ [])) in
    ground (arith, l, newline_takes text, length-take (length text - newline text) text)

module _ (encode : Event → Option (List ℕ)) where
  abbrev pub Encodes : Type 0
  Encodes = (event : Event) → (payload : List ℕ) × (encode event ≡ some payload)

  -- Each descriptor is the event's, encoded with the fields of the settings, and tagged if the event
  -- is a part of a line.
  abbrev pub Describes : (stream : ℕ) → Settings → List Emitted → List EventDescriptor → Type 0
  Describes stream settings [] ds = ds ≡ []
  Describes stream settings (e ∷ es) [] = [] ≡ e ∷ es
  Describes stream settings (e ∷ es) (d ∷ ds) =
      (d.stream ≡ stream)
      × (d.offset ≡ e.end_offset)
      × (encode (make_event settings (is_split e) e) ≡ some d.payload)
      × Describes stream settings es ds

  send_line-plain :
      (now : ℕ) (h : Harvest) (text : List ℕ) (bytes : ℕ)
      → Encodes
      → IsPlain h
      → h.reading.split ≡ (h.reading.offset + length text == h.reading.offset + bytes)
      → (d : EventDescriptor) × (send_line encode now (sends ∷ []) h text bytes
          ≡ some (sent_line now h bytes, d ∷ []))
        × Describes h.stream h.settings
            (record {
              start_offset = h.reading.offset;
              end_offset = h.reading.offset + bytes;
              text = text;
            }
              ∷ [])
            (d ∷ [])
  unfolding send_line through events event plain_event event_callbacks event_callback event_loop
  send_line-plain now h text bytes total p w =
      let e : Emitted = record {
        start_offset = h.reading.offset;
        end_offset = h.reading.offset + bytes;
        text = text;
      } in
      let (payload, q) = total (make_event h.settings h.reading.split e) in
      (
        record { stream = h.stream; offset = e.end_offset; payload = payload },
        rw (p.codec, p.chain, send_line) (rw (q, event_callback) refl),
        (refl, refl, ap (λ b. encode (make_event h.settings b e)) (sym w) ∙ q, refl),
      )

  pub Describes-append :
      (stream : ℕ) (settings : Settings) (es fs : List Emitted) (ds gs : List EventDescriptor)
      → Describes stream settings es ds
      → Describes stream settings fs gs
      → Describes stream settings (es ++ fs) (ds ++ gs)
  Describes-append stream settings [] fs ds gs p q =
      subst (λ xs. Describes stream settings fs (xs ++ gs)) (sym p) q
  Describes-append stream settings (e ∷ es) fs [] gs p q = cc
  Describes-append stream settings (e ∷ es) fs (d ∷ ds) gs (a, b, c, p) q =
      (a, b, c, Describes-append stream settings es fs ds gs p q)

  module _ (limit : ℕ) (r : Reader) (rewind : r.State → r.State) where
    open r use {State, rest}

    -- Where the harvester goes on, it does so with these bytes.
    abbrev pub Continues :
        Option HarvestError → Settings → (stream : ℕ) → (left : List ℕ) → State → Harvest → Type 0
    Continues none settings stream left s h =
        IsValid h.reader
        × IsPlain h
        × IsReady limit h
        × (left ≡ held h.reader ++ rest s)
        × (h.settings ≡ settings)
        × (h.stream ≡ stream)
    Continues (some e) settings stream left s h = Unit {0}

    -- The bytes are those of the lines that were sent, then those that are left, and the offset from
    -- which a harvester resumes lies between them. If it ends, it has a reason, and if it goes on, it
    -- made a read for each round.
    abbrev pub Delivered :
        Calls r
        → (offset : ℕ) → Settings
        → (stream : ℕ) → (bytes : List ℕ) → State × Outcome
        → Type 0
    Delivered calls offset settings stream bytes (s, (h, sent, err)) =
        (es : List Emitted) × (consumed : List ℕ) × (left : List ℕ) × (bytes ≡ consumed ++ left)
        × Restores limit es consumed
        × Tiles offset h.reading.offset es
        × Describes stream settings es sent
        × (h.reading.offset ≡ offset + length consumed)
        × (teardown h.codec ≡ h.reading.offset)
        × Ends r calls err s h
        × Continues err settings stream left s h

    abbrev pub Delivers :
        Calls r
        → (offset : ℕ) → Settings
        → (stream : ℕ) → (bytes : List ℕ) → Option (State × Outcome)
        → Type 0
    Delivers calls offset settings stream bytes result =
        (out : State × Outcome) × (result ≡ some out)
        × Delivered calls offset settings stream bytes out

    abbrev no_error : Option (Harvest × List EventDescriptor) → Option Outcome
    no_error o = elim o [ none ↦ none | some (h, sent) ↦ some (h, sent, none) ]

    abbrev with_state : State → Option Outcome → Option (State × Outcome)
    with_state s o = elim o [ none ↦ none | some outcome ↦ some (s, outcome) ]

    -- A call that sends nothing.
    pub idle-Delivered :
        (calls : Calls r) (s : State) (h : Harvest) (err : Option HarvestError)
        → Ends r calls err s h
        → IsValid h.reader
        → IsPlain h
        → IsReady limit h
        → Delivered calls h.reading.offset h.settings h.stream
            (held h.reader ++ rest s)
            (s, (h, [], err))
    unfolding teardown
    idle-Delivered calls s h none x v p w = (
      [],
      [],
      held h.reader ++ rest s,
      refl,
      refl,
      refl,
      refl,
      omega arith,
      rw (p.codec, teardown) refl,
      x,
      (v, p, w, refl, refl, refl),
    )
    idle-Delivered calls s h (some e) x v p w = (
      [],
      [],
      held h.reader ++ rest s,
      refl,
      refl,
      refl,
      refl,
      omega arith,
      rw (p.codec, teardown) refl,
      x,
      tt,
    )

    sent-Delivers :
        (round : Round) (text : List ℕ) (bytes : ℕ) (res : ReadResult) (lr : LineReader)
        (start s : State) (h : Harvest)
        → read_slice r lr start ≡ some (h.reader, s, res)
        → Encodes
        → round.signals ≡ sends ∷ []
        → (Reading.perform_read h.reading res).1
          ≡ record {
            start_offset = h.reading.offset;
            end_offset = h.reading.offset + bytes;
            text = text;
          }
            ∷ []
        → (Reading.perform_read h.reading res).0.offset ≡ h.reading.offset + bytes
        → bytes ≡ length (bytes_of res)
        → IsGood limit res
        → IsValid h.reader
        → IsPlain h
        → h.reader.max_line ≡ limit
        → h.reading.split ≡ (h.reading.offset + length text == h.reading.offset + bytes)
        → Delivers
            (round ∷ [], lr, start)
            h.reading.offset
            h.settings
            h.stream
            (bytes_of res ++ (held h.reader ++ rest s))
            (dispatch encode r rewind round (Reading.read text bytes) s (h, none))
    unfolding dispatch after_measure teardown
    sent-Delivers round text bytes res lr start s h q total willing e o n good v p m w =
        let (restores, tiles) = good-Restores limit h.reading res good in
        let (d, sent, describes) = send_line-plain round.now h text bytes total p w in
        let h' = sent_line round.now h bytes in
        let line_sent =
          ap (λ signals. send_line encode round.now signals h text bytes) willing ∙ sent in
        (
          (s, (h', d ∷ [], none)),
          ap (λ (o : Option (Harvest × List EventDescriptor)). with_state s (no_error o)) line_sent,
          (
            (record {
              start_offset = h.reading.offset;
              end_offset = h.reading.offset + bytes;
              text = text;
            }
                ∷ []),
            bytes_of res,
            held h.reader ++ rest s,
            refl,
            subst (λ es. Restores limit es (bytes_of res)) e restores,
            (refl, refl),
            describes,
            ap (λ k. h.reading.offset + k) n,
            refl,
            ReadsTo-one r lr h.reader start s res q,
            (
              v,
              record { codec = refl; chain = refl },
              record { max_line = m; unsplit = refl },
              refl,
              refl,
              refl,
            ),
          ),
        )

    -- A measurement that stops the harvester: what was read with it is left.
    stopped-Delivers :
        (round : Round) (res : ReadResult) (what : ReadLine) (lr : LineReader) (start s : State)
        (h : Harvest) (e : HarvestError)
        → StopsIn r (round ∷ []) h e
        → dispatch encode r rewind round what s (h, some e) ≡ some (s, (h, [], some e))
        → IsPlain h
        → Delivers
            (round ∷ [], lr, start)
            h.reading.offset
            h.settings
            h.stream
            (bytes_of res ++ (held h.reader ++ rest s))
            (dispatch encode r rewind round what s (h, some e))
    unfolding teardown
    stopped-Delivers round res what lr start s h e x q p = (
      (s, (h, [], some e)),
      q,
      (
        [],
        [],
        bytes_of res ++ (held h.reader ++ rest s),
        refl,
        refl,
        refl,
        refl,
        omega arith,
        rw (p.codec, teardown) refl,
        x,
        tt,
      ),
    )

    -- After the measurement of a call, with what was read.
    pub dispatch-Delivers :
        (round : Round) (res : ReadResult) (g : Reading.Harvester) (lr : LineReader)
        (start s : State) (h : Harvest) (err : Option HarvestError)
        → read_slice r lr start ≡ some (h.reader, s, res)
        → Encodes
        → round.signals ≡ sends ∷ []
        → Why round.moment (core h) err
        → IsGood limit res
        → IsValid h.reader
        → IsPlain h
        → h.reader.max_line ≡ limit
        → h.reading.split ≡ is_part res
        → Delivers
            (round ∷ [], lr, start)
            h.reading.offset
            h.settings
            h.stream
            (bytes_of res ++ (held h.reader ++ rest s))
            (dispatch encode r rewind round (readline g res).1 s (h, err))
    unfolding dispatch after_measure Reading.perform_read readline Reading.after_readline reach_end
    dispatch-Delivers round (line text) g lr start s h none q total willing t good v p m w =
        let (body, e, one, fits) = good in
        sent-Delivers round (take (length text - newline text) text) (length text) (line text) lr
          start s h q total willing refl refl refl good v p m
          (w ∙ sym (line-is_split h.reading.offset body text e))
    dispatch-Delivers round (too_long text) g lr start s h none q total willing t good v p m w =
        sent-Delivers round text (length text) (too_long text) lr start s h q total willing refl
          refl refl good v p m (w ∙ ground arith)
    dispatch-Delivers round (failed eof) g lr start s h none q total willing t good v p m w =
        elim (Option-cases h.fileinfo) [
          | inl n ↦ (
            (s, (h, [], some stop_requested)),
            simp (n, reach_end),
            idle-Delivered (round ∷ [], lr, start) s h (some stop_requested) (inl (inr (inr n))) v p
                (record { max_line = m; unsplit = w }),
          )
          | inr (info, e) ↦
              let h' = record h { last_eof = some (h.last_read_time, h.reading.offset) } in
              let err = if round.stopping then some stop_requested else none in
              let ends : Ends r (round ∷ [], lr, start) err s h' =
                if-Both (λ x. Ends r (round ∷ [], lr, start) x s h') round.stopping
                  (some stop_requested) none (λ y. inl (inr (inl y)))
                  (λ n. ReadsTo-one r lr h.reader start s (failed eof) q) in
              (
                (s, (h', [], err)),
                simp (e, reach_end),
                idle-Delivered (round ∷ [], lr, start) s h' err ends v
                    (record { codec = p.codec; chain = p.chain })
                    (record { max_line = m; unsplit = w }),
              )
        ]
    dispatch-Delivers round (failed other) g lr start s h none q total willing t good v p m w = (
      (s, (h, [], some read_failed)),
      refl,
      idle-Delivered (round ∷ [], lr, start) s h (some read_failed)
          (inl (lr, start, h.reader, s, q)) v p (record { max_line = m; unsplit = w }),
    )
    dispatch-Delivers round res g lr start s h (some stop_requested) q total willing t good v p m
          w =
        stopped-Delivers round res (readline g res).1 lr start s h stop_requested (inl (inl t)) refl
          p
    dispatch-Delivers round res g lr start s h (some stat_failed) q total willing t good v p m w =
        stopped-Delivers round res (readline g res).1 lr start s h stat_failed (inl t) refl p
    dispatch-Delivers round res g lr start s h (some read_failed) q total willing t good v p m w =
        cc
    dispatch-Delivers round res g lr start s h (some file_truncated) q total willing t good v p m
          w =
        cc
