-- ===== src/Transports/Tcp/Wire/RoundTrip.antt =====
-- The messages of lc-lib/transports/tcp/tcp.go can be read back: a reader of the protocol
-- (docs/Protocol.md) finds the nonce and the events that were written.
use log_courier.Common.{
  ℕ, zero, suc, ◌+◌, ◌^◌, ◌≤◌, ◌<◌, ◌≡◌, refl, sym, ap, ◌∙◌, true, false, List, [], ◌∷◌, ◌++◌,
  Option, none, some, map, length, take, drop, length-append, take-append_length,
  drop-append_length, le→leb, leb, ◌&&◌, ◌==◌, if◌then◌else◌, arith,
}
use log_courier.Core.{EventDescriptor}
use log_courier.Transports.Tcp.Wire.{put_uint32, uint32, frame, write}

pub uint32-put_uint32 :
    (n : ℕ) (rest : List ℕ) → n < 2 ^ 32 → uint32 (put_uint32 n ++ rest) ≡ some n
unfolding uint32 put_uint32
uint32-put_uint32 n rest h = ap some (omega arith)

-- The bodies of the events in a framed text, on fuel.
unfoldable pub unframe : ℕ → List ℕ → Option (List (List ℕ))
unframe fuel [] = some []
unframe zero (b ∷ text) = none
unframe (suc fuel) (b ∷ text) = elim (uint32 (b ∷ text)) [
  | none ↦ none
  | some n ↦
      let rest = drop 4 (b ∷ text) in
      elim (leb n (length rest)) [
        | false ↦ none
        | true ↦ elim (unframe fuel (drop n rest)) [
          | none ↦ none
          | some bodies ↦ some (take n rest ∷ bodies)
        ]
      ]
]

abbrev pub AllShort : List EventDescriptor → Type 0
AllShort [] = Unit {0}
AllShort (e ∷ events) = (length e.payload < 2 ^ 32) × AllShort events

unframe_put :
    (fuel n : ℕ) (body rest : List ℕ) (bodies : List (List ℕ))
    → length body ≡ n
    → n < 2 ^ 32
    → unframe fuel rest ≡ some bodies
    → unframe (suc fuel) (put_uint32 n ++ (body ++ rest)) ≡ some (body ∷ bodies)
unfolding put_uint32 unframe
unframe_put fuel n body rest bodies l h e =
    let q : uint32 (put_uint32 n ++ (body ++ rest)) ≡ some n =
      uint32-put_uint32 n (body ++ rest) h in
    let r : leb n (length (body ++ rest)) ≡ true =
      le→leb _ _ (omega (arith, length-append body rest)) in
    let t : take n (body ++ rest) ≡ body =
      ap (λ k. take k (body ++ rest)) (sym l) ∙ take-append_length body rest in
    let d : drop n (body ++ rest) ≡ rest =
      ap (λ k. drop k (body ++ rest)) (sym l) ∙ drop-append_length body rest in
    rw (q, unframe) (rw (r, unframe) (rw d (rw (e, unframe) (rw t refl))))

unframe-frame :
    (fuel : ℕ) (events : List EventDescriptor)
    → length (frame events) ≤ fuel
    → AllShort events
    → unframe fuel (frame events) ≡ some (map (λ e. e.payload) events)
unfolding frame
unframe-frame zero [] h s = unfold unframe in refl
unframe-frame (suc fuel) [] h s = unfold unframe in refl
unframe-frame zero (e ∷ events) h s = unfold put_uint32 in absurd (omega arith)
unframe-frame (suc fuel) (e ∷ events) h (short, s) =
    unframe_put fuel (length e.payload) e.payload (frame events) (map (λ e. e.payload) events) refl
      short
      (unframe-frame fuel events
        (unfold put_uint32 in omega (arith, length-append e.payload (frame events))) s)

-- A reader of the protocol, given what undoes the compression: the nonce and the bodies of the
-- events of one message that fills the text.
unfoldable pub read_message : (List ℕ → Option (List ℕ)) → List ℕ → Option (List ℕ × List (List ℕ))
unfolding unframe
read_message decompress (j ∷ d ∷ a ∷ t ∷ text) =
    if j == b'J' && d == b'D' && a == b'A' && t == b'T'
    then elim (uint32 text) [
      | none ↦ none
      | some n ↦
          let body = drop 4 text in
          if length body == n && leb 16 n
          then elim (decompress (drop 16 body)) [
            | none ↦ none
            | some framed ↦ elim (unframe (length framed) framed) [
              | none ↦ none
              | some bodies ↦ some (take 16 body, bodies)
            ]
          ]
          else none
    ]
    else none
read_message decompress _ = none

-- If the compression can be undone, the nonce has 16 bytes, each event is shorter than 2^32 bytes,
-- and so is the body of the message, then a reader of the protocol gets the nonce and the events in
-- their order, each with its bytes, from what `Write` sends.
pub read_message-write :
    (compress : List ℕ → List ℕ) (decompress : List ℕ → Option (List ℕ)) (nonce : List ℕ)
    (events : List EventDescriptor)
    → ((text : List ℕ) → decompress (compress text) ≡ some text)
    → length nonce ≡ 16
    → AllShort events
    → 16 + length (compress (frame events)) < 2 ^ 32
    → read_message decompress (write compress nonce events)
      ≡ some (nonce, map (λ e. e.payload) events)
unfolding read_message write put_uint32
read_message-write compress decompress nonce events undoes l short fits =
    let framed = frame events in
    let body = nonce ++ compress framed in
    let lb : length body ≡ 16 + length (compress framed) =
      omega (arith, length-append nonce (compress framed)) in
    let q : uint32 (put_uint32 (length body) ++ body) ≡ some (length body) =
      uint32-put_uint32 (length body) body (omega arith) in
    let d : drop 16 body ≡ compress framed =
      ap (λ k. drop k body) (sym l) ∙ drop-append_length nonce (compress framed) in
    let t : take 16 body ≡ nonce =
      ap (λ k. take k body) (sym l) ∙ take-append_length nonce (compress framed) in
    let e : (length body == length body && leb 16 (length body)) ≡ true = ground arith in
    rw (q, read_message)
      (rw (e, read_message)
        (rw d (
          rw (undoes framed, read_message)
            (rw (unframe-frame (length framed) events (omega arith) short, read_message)
              (rw t refl)))))
