-- ===== src/Harvester/LineReader/Lines.antt =====
-- What `ReadSlice` returns (lc-lib/harvester/linereader.go): the bytes of the stream, once and in
-- order, in lines that end with their line feed or are cut at the limit.
use log_courier.Common.{
  ℕ, zero, suc, ◌+◌, ◌-◌, ◌≤◌, ◌<◌, ◌≡◌, refl, sym, ap, ◌∙◌, subst, inl, inr, true, false, List, [],
  ◌∷◌, ◌++◌, Option, none, some, length, take, arith, leb, ◌==◌, Bool-cases, append_assoc,
  Option-cases, length-append, length-take, leb→le,
}
use log_courier.Harvester.LineReader.Input.{Reader, ReadError}
use log_courier.Harvester.LineReader.{
  LineReader, ReadResult, line, too_long, failed, window, flat, spill, finish, newline_at, fill,
  advance, read_loop, read_slice,
}
use log_courier.Harvester.LineReader.Fill.{
  IsOneLine, IsOneLine-append, IsValid, held, length-window, fill-IsFilled,
}
use log_courier.Harvester.LineReader.Parts.{
  newline_at-some, newline_at-none, index_newline-some, spill-IsSpilled, taken, finish_lem,
  taken-IsValid,
}

-- The bytes that a result gives out.
abbrev pub bytes_of : ReadResult → List ℕ
bytes_of (line text) = text
bytes_of (too_long text) = text
bytes_of (failed e) = []

-- A line is what stands before a line feed, with it, and within the limit; a line cut short is as
-- long as the limit and has no line feed.
abbrev pub IsGood : ℕ → ReadResult → Type 0
IsGood limit (line text) =
    (body : List ℕ) × (text ≡ body ++ b'\n' ∷ []) × IsOneLine body × (length text ≤ limit)
IsGood limit (too_long text) = (length text ≡ limit) × IsOneLine text
IsGood limit (failed e) = Unit {0}

length-held :
    (lr : LineReader)
    → IsValid lr
    → length (held lr) ≡ length (flat lr.overflow) + (lr.end - lr.start)
unfolding held
length-held lr v = omega (arith, length-append (flat lr.overflow) (window lr), length-window lr v)

module _ (r : Reader) where
  open r use {State, rest}

  -- A call that returns, with a good result, and no byte lost, doubled or out of order between what
  -- it gives out, what the reader then holds and what the stream has yet to give.
  abbrev pub Reads : LineReader → State → Option (LineReader × State × ReadResult) → Type 0
  Reads lr s result =
      (lr' : LineReader) × (s' : State) × (res : ReadResult) × (result ≡ some (lr', s', res))
      × IsValid lr'
      × IsGood lr.max_line res
      × (held lr ++ rest s ≡ bytes_of res ++ (held lr' ++ rest s'))
      × (lr'.max_line ≡ lr.max_line)

  -- The fuel that is enough, the sooner if the loop has an error at hand.
  abbrev Enough : ℕ → LineReader → Option ReadError → Type 0
  Enough fuel lr none = (1 ≤ fuel) × (lr.max_line + 2 ≤ fuel + length (held lr))
  Enough fuel lr (some e) = 1 ≤ fuel

  give-Reads :
      (lr : LineReader) (s : State) (n : ℕ) (wrap : List ℕ → ReadResult)
      → IsValid lr
      → n ≤ length (window lr)
      → ((text : List ℕ) → bytes_of (wrap text) ≡ text)
      → IsGood lr.max_line (wrap (flat lr.overflow ++ take n (window lr)))
      → Reads lr s
          (let (lr', text) = finish (advance lr n) (take n (window lr)) in some (lr', s, wrap text))
  give-Reads lr s n wrap v h whole good =
      let (valid, kept) = taken-IsValid lr n v h in
      let text = flat lr.overflow ++ take n (window lr) in
      (
        taken lr n,
        s,
        wrap text,
        rw (finish_lem lr n (take n (window lr)) v),
        valid,
        good,
        ap (λ h. h ++ rest s) (sym kept)
            ∙ append_assoc text (held (taken lr n)) (rest s)
            ∙ ap (λ t. t ++ (held (taken lr n) ++ rest s)) (sym (whole text)),
        refl,
      )

  line-Reads :
      (fuel : ℕ) (lr : LineReader) (s : State) (err : Option ReadError) (n : ℕ)
      → IsValid lr
      → newline_at lr ≡ some n
      → Reads lr s (read_loop r (suc fuel) lr s err)
  unfolding read_loop
  line-Reads fuel lr s err n v e =
      let (found, soon) = newline_at-some lr n e in
      let (inside, one, ends) = index_newline-some (window lr) n found in
      rw (e, read_loop)
        (give-Reads lr s (n + 1) line v (omega arith) (λ t. refl)
          (
            flat lr.overflow ++ take n (window lr),
            ap (◌++◌ (flat lr.overflow)) ends
                ∙ sym (append_assoc (flat lr.overflow) (take n (window lr)) (b'\n' ∷ [])),
            IsOneLine-append (flat lr.overflow) (take n (window lr)) v.one_line one,
            omega (
              arith,
              length-append (flat lr.overflow) (take (n + 1) (window lr)),
              length-take (n + 1) (window lr),
              v.budget,
            ),
          ))

  cut-Reads :
      (fuel : ℕ) (lr : LineReader) (s : State)
      → IsValid lr
      → newline_at lr ≡ none
      → leb lr.cur_max (lr.end - lr.start) ≡ true
      → Reads lr s (read_loop r (suc fuel) lr s none)
  unfolding read_loop
  cut-Reads fuel lr s v e long =
      rw (e, read_loop)
        (rw long (
          give-Reads lr s lr.cur_max too_long v (omega (arith, leb→le _ _ long, length-window lr v))
            (λ t. refl)
            (
              omega (
                arith,
                length-append (flat lr.overflow) (take lr.cur_max (window lr)),
                length-take lr.cur_max (window lr),
                v.budget,
                leb→le _ _ long,
                length-window lr v,
              ),
              IsOneLine-append (flat lr.overflow) (take lr.cur_max (window lr)) v.one_line
                  (newline_at-none lr e),
            )))

  Enough-cases :
      (fuel : ℕ) (lr : LineReader) (err : Option ReadError)
      → 1 ≤ fuel
      → (err ≡ none → lr.max_line + 2 ≤ fuel + length (held lr))
      → Enough fuel lr err
  Enough-cases fuel lr none h k = (h, k refl)
  Enough-cases fuel lr (some e) h k = h

  Reads-trans :
      (lr lr₁ : LineReader) (s s₁ : State) (result : Option (LineReader × State × ReadResult))
      → held lr ++ rest s ≡ held lr₁ ++ rest s₁
      → lr₁.max_line ≡ lr.max_line
      → Reads lr₁ s₁ result
      → Reads lr s result
  Reads-trans lr lr₁ s s₁ result e m (lr', s', res, q, v, good, kept, m') =
      (lr', s', res, q, v, subst (λ limit. IsGood limit res) m good, e ∙ kept, m' ∙ m)

  filled_bytes :
      (lr lr₁ lr₂ : LineReader) (s s' : State) (bytes : List ℕ)
      → held lr₁ ≡ held lr
      → held lr₂ ≡ held lr₁ ++ bytes
      → rest s ≡ bytes ++ rest s'
      → held lr ++ rest s ≡ held lr₂ ++ rest s'
  filled_bytes lr lr₁ lr₂ s s' bytes p q t =
      ap (λ h. h ++ rest s) (sym p)
      ∙ ap (◌++◌ (held lr₁)) t
      ∙ sym (append_assoc (held lr₁) bytes (rest s'))
      ∙ ap (λ h. h ++ rest s') (sym q)

  -- The round that reads on, given the rounds that follow it.
  more-Reads :
      (fuel : ℕ) (lr : LineReader) (s : State)
      → ((lr' : LineReader) (s' : State) (err : Option ReadError)
          → IsValid lr'
          → Enough fuel lr' err
          → Reads lr' s' (read_loop r fuel lr' s' err))
      → IsValid lr
      → Enough (suc fuel) lr none
      → newline_at lr ≡ none
      → leb lr.cur_max (lr.end - lr.start) ≡ false
      → Reads lr s (read_loop r (suc fuel) lr s none)
  more-Reads fuel lr s next v enough absent short =
      let len : lr.end - lr.start < lr.cur_max = ground arith in
      let sp = spill-IsSpilled lr v absent len in
      let (bytes, f, from, some_byte) = fill-IsFilled r (spill lr) s sp.valid sp.space in
      let (lr', s', err) = fill r (spill lr) s in
      let shorter : length (held lr) < lr.max_line =
        omega (arith, length-held lr v, v.budget, len) in
      let rest_enough : err ≡ none → lr'.max_line + 2 ≤ fuel + length (held lr') = λ e. omega (
        arith,
        enough.1,
        ap length f.held_grows,
        ap length sp.same_held,
        length-append (held (spill lr)) bytes,
        f.same_line,
        sp.same_line,
        some_byte e,
      ) in
      let enough' = Enough-cases fuel lr' err (omega (arith, enough.1)) rest_enough in
      let go_on =
        Reads-trans lr lr' s s' (read_loop r fuel lr' s' err)
          (filled_bytes lr (spill lr) lr' s s' bytes sp.same_held f.held_grows from)
          (f.same_line ∙ sp.same_line) (next lr' s' err f.valid enough') in
      unfold read_loop in rw (absent, read_loop) (rw short go_on)

  failed-Reads :
      (fuel : ℕ) (lr : LineReader) (s : State) (e : ReadError)
      → IsValid lr
      → newline_at lr ≡ none
      → Reads lr s (read_loop r (suc fuel) lr s (some e))
  unfolding read_loop
  failed-Reads fuel lr s e v absent = (lr, s, failed e, rw (absent, read_loop), v, tt, refl, refl)

  read_loop-Reads :
      (fuel : ℕ) (lr : LineReader) (s : State) (err : Option ReadError)
      → IsValid lr
      → Enough fuel lr err
      → Reads lr s (read_loop r fuel lr s err)
  read_loop-Reads zero lr s none v enough = absurd (omega arith)
  read_loop-Reads zero lr s (some e) v enough = absurd (omega arith)
  read_loop-Reads (suc fuel) lr s (some e) v enough = elim (Option-cases (newline_at lr)) [
    | inr (n, found) ↦ line-Reads fuel lr s (some e) n v found
    | inl absent ↦ failed-Reads fuel lr s e v absent
  ]
  read_loop-Reads (suc fuel) lr s none v enough = elim (Option-cases (newline_at lr)) [
    | inr (n, found) ↦ line-Reads fuel lr s none n v found
    | inl absent ↦ elim (Bool-cases (leb lr.cur_max (lr.end - lr.start))) [
      | inl long ↦ cut-Reads fuel lr s v absent long
      | inr short ↦ more-Reads fuel lr s (read_loop-Reads fuel) v enough absent short
    ]
  ]

  -- On a valid reader `ReadSlice` returns within its fuel, whatever the stream does: a line with
  -- its line feed, within the limit; or, cut short, a part as long as the limit without one; or the
  -- stream's error. What it gives out comes first of what the reader held and the stream had yet to
  -- give, and what it then holds with what the stream has yet to give is exactly what remains.
  pub read_slice-Reads : (lr : LineReader) (s : State) → IsValid lr → Reads lr s (read_slice r lr s)
  unfolding read_slice
  read_slice-Reads lr s v = elim (Bool-cases (lr.end == 0)) [
    | inr started ↦
        rw started (read_loop-Reads (lr.max_line + 2) lr s none v (omega arith, omega arith))
    | inl fresh ↦
        let empty : lr.end - lr.start < lr.size = ground (arith, v.room) in
        let (bytes, f, from, some_byte) = fill-IsFilled r lr s v empty in
        let (lr', s', err) = fill r lr s in
        rw fresh (
          Reads-trans lr lr' s s' _ (filled_bytes lr lr lr' s s' bytes refl f.held_grows from)
            f.same_line
            (read_loop-Reads (lr.max_line + 2) lr' s' err f.valid (
              Enough-cases (lr.max_line + 2) lr' err (omega arith)
                (λ e. omega (arith, f.same_line)))))
  ]
