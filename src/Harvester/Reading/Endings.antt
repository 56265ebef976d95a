-- ===== src/Harvester/Reading/Endings.antt =====
-- The lines that lc-lib/harvester/harvester.go hands to its codec are the bytes of the file but for
-- the line endings, with their true offsets.
use log_courier.Common.{
  ℕ, zero, suc, ◌+◌, ◌-◌, ◌≤◌, ◌≢◌, take, ◌≡◌, ◌⊎◌, refl, sym, ap, ◌∙◌, subst, inl, inr, true,
  Bool-cases, List, [], ◌∷◌, ◌++◌, length, length-append, drop, drop-drop, drop-append_length,
  take-append-drop, arith, append_assoc, append-nil, ltb, ◌&&◌,
}
use log_courier.Codecs.{Emitted}
use log_courier.Codecs.Multiline.Shipping.{Tiles, Tiles-append}
use log_courier.Harvester.LineReader.Input.{eof, other}
use log_courier.Harvester.LineReader.{ReadResult, line, too_long, failed}
use log_courier.Harvester.LineReader.Fill.{IsOneLine}
use log_courier.Harvester.LineReader.Lines.{IsGood, bytes_of}
use log_courier.Harvester.LineReader.Calls.{AllGood, all_bytes}
use log_courier.Harvester.Reading.{
  Harvester, carriage_return, newline, readline, after_readline, perform_read,
}

-- No text before it makes this text end with a carriage return.
abbrev pub NoReturn : List ℕ → Type 0
NoReturn text = (front : List ℕ) → text ≢ front ++ b'\r' ∷ []

-- What a text is with what was taken off its end: a part of a line, as long as the limit and whole;
-- or all that a line has before its line feed, or before its carriage return and line feed.
abbrev pub IsLine : (limit : ℕ) → (text ending : List ℕ) → Type 0
IsLine limit text ending =
    IsOneLine text
    × (length (text ++ ending) ≤ limit)
    × (((ending ≡ []) × (length text ≡ limit))
        ⊎ (((ending ≡ b'\n' ∷ []) × NoReturn text) ⊎ (ending ≡ b'\r' ∷ b'\n' ∷ [])))

-- The events are these bytes, line by line or part by part, and their offsets count them.
abbrev pub Restores : (limit : ℕ) → List Emitted → List ℕ → Type 0
Restores limit [] bytes = bytes ≡ []
Restores limit (e ∷ es) bytes =
    (ending : List ℕ) × (rest : List ℕ) × IsLine limit e.text ending
    × (bytes ≡ (e.text ++ ending) ++ rest)
    × (e.end_offset ≡ e.start_offset + length (e.text ++ ending))
    × Restores limit es rest

IsOneLine-take :
    (n : ℕ) (body rest : List ℕ)
    → n ≤ length body
    → IsOneLine body
    → IsOneLine (take n (body ++ rest))
IsOneLine-take zero body rest short one = tt
IsOneLine-take (suc n) [] rest short one = absurd (omega (arith, short))
IsOneLine-take (suc n) (x ∷ body) rest short one =
    (one.0, IsOneLine-take n body rest (omega (arith, short)) one.1)

-- Where the text that is left ends with a carriage return, the code sees it.
carriage_return-front :
    (front text : List ℕ)
    → text ≡ front ++ b'\r' ∷ b'\n' ∷ []
    → (ltb 1 (length text) && carriage_return (drop (length text - 2) text)) ≡ true
carriage_return-front front text e =
    let l : length text ≡ length front + 2 =
      ap length e ∙ omega (arith, length-append front (b'\r' ∷ b'\n' ∷ [])) in
    let ends : drop (length text - 2) text ≡ b'\r' ∷ b'\n' ∷ [] =
      ap (λ n. drop n text) (omega (arith, l))
      ∙ ap (drop (length front)) e
      ∙ drop-append_length front (b'\r' ∷ b'\n' ∷ []) in
    rw (ends) (ground (arith, l))

carriage_return-lem :
    (text : List ℕ)
    → carriage_return text ≡ true
    → drop 1 text ≡ b'\n' ∷ []
    → text ≡ b'\r' ∷ b'\n' ∷ []
carriage_return-lem [] h e = cc
carriage_return-lem (c ∷ rest) h e =
    let r : c ≡ b'\r' = ground arith in ap (λ x. x ∷ rest) r ∙ ap (◌∷◌ b'\r') e

take-IsLine :
    (limit : ℕ) (body text : List ℕ)
    → text ≡ body ++ b'\n' ∷ []
    → IsOneLine body
    → length text ≤ limit
    → IsLine limit (take (length text - newline text) text) (drop (length text - newline text) text)
unfolding newline
take-IsLine limit body text e one fits =
    let l : length text ≡ length body + 1 =
      ap length e ∙ omega (arith, length-append body (b'\n' ∷ [])) in
    let feed : drop (length text - 1) text ≡ b'\n' ∷ [] =
      ap (λ n. drop n text) (omega (arith, l))
      ∙ ap (drop (length body)) e
      ∙ drop-append_length body (b'\n' ∷ []) in
    let one_line : (n : ℕ) → n ≤ length body → IsOneLine (take n text) = λ n short.
      subst (λ t. IsOneLine (take n t)) (sym e) (IsOneLine-take n body (b'\n' ∷ []) short one) in
    let whole : (n : ℕ) → length (take n text ++ drop n text) ≤ limit =
      λ n. subst (λ t. length t ≤ limit) (sym (take-append-drop n text)) fits in
    elim (Bool-cases (ltb 1 (length text) && carriage_return (drop (length text - 2) text))) [
      | inr plain ↦
          let no_return : NoReturn (take (length text - 1) text) = λ front r.
            let again = carriage_return-front front text (
              sym (take-append-drop (length text - 1) text)
              ∙ ap (λ t. t ++ drop (length text - 1) text) r
              ∙ ap (λ t. (front ++ b'\r' ∷ []) ++ t) feed
              ∙ append_assoc front (b'\r' ∷ []) (b'\n' ∷ [])) in
            ground (arith, plain, again) in
          rw plain (
            one_line (length text - 1) (omega (arith, l)),
            whole (length text - 1),
            inr (inl (feed, no_return)),
          )
      | inl both ↦ rw both (
        one_line (length text - 2) (omega (arith, l)),
        whole (length text - 2),
        inr (
            inr (
              carriage_return-lem (drop (length text - 2) text) (ground arith)
                (drop-drop (length text - 2) 1 (length text - 1) text (ground arith) ∙ feed))),
      )
    ]

pub good-Restores :
    (limit : ℕ) (h : Harvester) (result : ReadResult)
    → IsGood limit result
    → Restores limit (perform_read h result).1 (bytes_of result)
      × Tiles h.offset (perform_read h result).0.offset (perform_read h result).1
unfolding perform_read readline after_readline
good-Restores limit h (line text) (body, e, one, fits) =
    let cut = length text - newline text in
    let whole = take-append-drop cut text in
    (
      (
        drop cut text,
        [],
        take-IsLine limit body text e one fits,
        sym (append-nil _ ∙ whole),
        ap (λ t. h.offset + length t) (sym whole),
        refl,
      ),
      (refl, refl),
    )
good-Restores limit h (too_long text) (size, one) =
    let whole = append-nil text in
    (
      (
        [],
        [],
        (one, subst (λ t. length t ≤ limit) (sym whole) (omega (arith, size)), inl (refl, size)),
        sym (append-nil _ ∙ whole),
        ap (λ t. h.offset + length t) (sym whole),
        refl,
      ),
      (refl, refl),
    )
good-Restores limit h (failed eof) good = (refl, refl)
good-Restores limit h (failed other) good = (refl, refl)

pub Restores-append :
    (limit : ℕ) (es fs : List Emitted) (bytes more : List ℕ)
    → Restores limit es bytes
    → Restores limit fs more
    → Restores limit (es ++ fs) (bytes ++ more)
Restores-append limit [] fs bytes more r t = subst (λ b. Restores limit fs (b ++ more)) (sym r) t
Restores-append limit (e ∷ es) fs bytes more (ending, rest, is_line, q, l, r) t = (
  ending,
  rest ++ more,
  is_line,
  ap (λ b. b ++ more) q ∙ append_assoc (e.text ++ ending) rest more,
  l,
  Restores-append limit es fs rest more r t,
)

-- Reads, one for each result of the line reader.
unfoldable pub perform_reads : Harvester → List ReadResult → Harvester × List Emitted
perform_reads h [] = (h, [])
perform_reads h (result ∷ results) =
    let (h', es) = perform_read h result in
    let (last, more) = perform_reads h' results in (last, es ++ more)

-- For results as the line reader returns them, each a whole line with its line feed, a part of a
-- line, or an error, what the harvester hands to its codec lies end to end in the file, from the
-- offset that the harvester had to the one that it then has. Each text has no line feed, and is
-- either a whole line without its line feed and without a carriage return before that, or a part as
-- long as the limit, from which nothing was taken; its offsets count its bytes and those taken off;
-- and all the bytes that the line reader returned are handed over, in order.
pub perform_reads-Restores :
    (limit : ℕ) (h : Harvester) (results : List ReadResult)
    → AllGood limit results
    → Restores limit (perform_reads h results).1 (all_bytes results)
      × Tiles h.offset (perform_reads h results).0.offset (perform_reads h results).1
unfolding perform_reads
perform_reads-Restores limit h [] good = (refl, refl)
perform_reads-Restores limit h (result ∷ results) (good, all) =
    let (h', es) = perform_read h result in
    let (last, more) = perform_reads h' results in
    let (r, t) = good-Restores limit h result good in
    let (rs, ts) = perform_reads-Restores limit h' results all in
    (
      Restores-append limit es more (bytes_of result) (all_bytes results) r rs,
      Tiles-append h.offset h'.offset last.offset es more t ts,
    )
