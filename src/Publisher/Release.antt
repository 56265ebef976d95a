-- ===== src/Publisher/Release.antt =====
-- The loop of `OnAck` (lc-lib/publisher/publisher.go), which gives what is acknowledged to the
-- registrar.
use log_courier.Common.{
  ◌+◌, ◌≡◌, refl, sym, ap, ◌∙◌, inl, inr, true, false, Bool-cases, List, [], ◌∷◌, ◌++◌, some,
  length, take, drop, arith, take-append-drop, append_assoc, append-nil, ◌==◌, ℤ, pos, ◌-ℤ◌,
}
use log_courier.Core.{EventDescriptor}
use log_courier.Payload.{Payload, has_ack}
use log_courier.Payload.Invariant.{IsValid, rolled, rollup_lem, rollup-IsValid, complete_lem}
use log_courier.Publisher.{Element, Released, release, then_release}

-- The events of lists, end to end.
unfoldable pub flat : List (List EventDescriptor) → List EventDescriptor
flat [] = []
flat (es ∷ ess) = es ++ flat ess

-- The events of the payloads in flight, in order.
unfoldable pub in_flight : List Element → List EventDescriptor
in_flight [] = []
in_flight (e ∷ list) = e.value.events ++ in_flight list

abbrev pub AllValid : List Element → Type 0
AllValid [] = Unit {0}
AllValid (e ∷ list) = IsValid e.value × AllValid list

-- No acknowledged event of the first payload is still to be released.
abbrev pub IsReleased : List Element → Type 0
IsReleased [] = Unit {0}
IsReleased (e ∷ list) = e.value.ack_events ≡ 0

pub flat-append : (xs ys : List (List EventDescriptor)) → flat (xs ++ ys) ≡ flat xs ++ flat ys
unfolding flat
flat-append [] ys = refl
flat-append (x ∷ xs) ys = ap (◌++◌ x) (flat-append xs ys) ∙ sym (append_assoc x (flat xs) (flat ys))

-- What the loop does to a list of payloads.
pub record Releases (list : List Element) (r : Released) : Type 0 where
  pub valid : AllValid r.payload_list
  pub released : IsReleased r.payload_list
  pub events : flat r.acks ++ in_flight r.payload_list ≡ in_flight list
  pub count : length r.payload_list + r.num_complete ≡ length list

rolled_events : (pp : Payload) → take pp.ack_events pp.events ++ (rolled pp).events ≡ pp.events
rolled_events pp = take-append-drop pp.ack_events pp.events

no_events : (es : List EventDescriptor) → (length es == 0) ≡ true → es ≡ []
no_events [] h = refl
no_events (e ∷ es) h = ground arith

then_release-Releases :
    (e : Element) (list : List Element) (r : Released)
    → (rolled e.value).events ≡ []
    → Releases list r
    → Releases (e ∷ list) (then_release (take e.value.ack_events e.value.events) r)
unfolding then_release flat in_flight
then_release-Releases e list r none_left h = record {
  valid = h.valid;
  released = h.released;
  events =
      append_assoc (take e.value.ack_events e.value.events) (flat r.acks) (in_flight r.payload_list)
      ∙ ap (◌++◌ (take e.value.ack_events e.value.events)) h.events
      ∙ ap (λ es. es ++ in_flight list)
          (sym (append-nil _)
            ∙ ap (◌++◌ (take e.value.ack_events e.value.events)) (sym none_left)
            ∙ rolled_events e.value);
  count = omega (arith, h.count);
}

quiet_lem : (pp : Payload) → has_ack pp ≡ false → pp.ack_events ≡ 0
unfolding has_ack
quiet_lem pp h = ground arith

-- The rounds of the loop, by what is left of the first payload.
release_partial :
    (counted shared : ℤ) (e : Element) (list : List Element)
    → IsValid e.value
    → has_ack e.value ≡ true
    → (length (rolled e.value).events == 0) ≡ false
    → release counted shared (e ∷ list)
      ≡ some (record {
        payload_list = record e { value = rolled e.value } ∷ list;
        out_of_sync = shared;
        acks = take e.value.ack_events e.value.events ∷ [];
        num_complete = 0;
      })
unfolding release
release_partial counted shared e list v acked left =
    rw (acked, release)
      (rw (rollup_lem e.value v, release)
        (rw (complete_lem (rolled e.value) (rollup-IsValid e.value v), release) (rw left refl)))

release_whole :
    (counted shared : ℤ) (e : Element) (list : List Element) (r : Released)
    → IsValid e.value
    → has_ack e.value ≡ true
    → (length (rolled e.value).events == 0) ≡ true
    → release (counted -ℤ pos 1) (counted -ℤ pos 1) list ≡ some r
    → release counted shared (e ∷ list)
      ≡ some (then_release (take e.value.ack_events e.value.events) r)
unfolding release
release_whole counted shared e list r v acked left h =
    rw (acked, release)
      (rw (rollup_lem e.value v, release)
        (rw (complete_lem (rolled e.value) (rollup-IsValid e.value v), release)
          (rw (left, release) (rw h refl))))

pub release-Releases :
    (counted shared : ℤ) (list : List Element)
    → AllValid list
    → (r : Released) × (release counted shared list ≡ some r) × Releases list r
unfolding release
release-Releases counted shared [] v = (
  _,
  refl,
  record { valid = tt; released = tt; events = unfold flat in_flight in refl; count = omega arith },
)
release-Releases counted shared (e ∷ list) (v, vs) = elim (Bool-cases (has_ack e.value)) [
  | inr quiet ↦ (
    record { payload_list = e ∷ list; out_of_sync = shared; acks = []; num_complete = 0 },
    rw (quiet, release) refl,
    record {
      valid = (v, vs);
      released = quiet_lem e.value quiet;
      events = unfold flat in refl;
      count = omega arith;
    },
  )
  | inl acked ↦ elim (Bool-cases (length (rolled e.value).events == 0)) [
    | inr left ↦ (
      _,
      release_partial counted shared e list v acked left,
      record {
        valid = (rollup-IsValid e.value v, vs);
        released = refl;
        events =
            unfold flat in_flight in
            ap (λ es. es ++ (drop e.value.ack_events e.value.events ++ in_flight list))
              (append-nil (take e.value.ack_events e.value.events))
            ∙ sym (
                append_assoc (take e.value.ack_events e.value.events)
                  (drop e.value.ack_events e.value.events) (in_flight list))
            ∙ ap (λ es. es ++ in_flight list) (rolled_events e.value);
        count = omega arith;
      },
    )
    | inl whole ↦
        let (r, h, rest) = release-Releases (counted -ℤ pos 1) (counted -ℤ pos 1) list vs in
        (
          _,
          release_whole counted shared e list r v acked whole h,
          then_release-Releases e list r (no_events (rolled e.value).events whole) rest,
        )
  ]
]
