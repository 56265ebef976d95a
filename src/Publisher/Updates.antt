-- ===== src/Publisher/Updates.antt =====
-- The changes that lc-lib/publisher/publisher.go makes to one payload of its list.
use log_courier.Common.{
  ℕ, suc, ◌≤◌, ◌≡◌, ◌⊎◌, refl, ap, ◌∙◌, subst, inl, inr, Bool, true, Bool-cases, List, [], ◌∷◌,
  ◌++◌, some, length, arith, ◌==◌,
}
use log_courier.Payload.{Payload, ack, reset_sequence}
use log_courier.Payload.Invariant.{IsValid, ack-IsValid, reset_sequence-IsValid}
use log_courier.Publisher.{Element, find, update}
use log_courier.Publisher.Release.{AllValid, IsReleased, in_flight}

-- A change of a payload that is about its acknowledgements alone.
pub record KeepsEvents (f : Payload → Payload) : Type 0 where
  pub events : (v : Payload) → (f v).events ≡ v.events
  pub valid : (v : Payload) → IsValid v → IsValid (f v)

-- Only the payload `id` may be first with acknowledged events to release.
abbrev pub IsDue : ℕ → List Element → Type 0
IsDue id [] = Unit {0}
IsDue id (e ∷ list) = ((e.id == id) ≡ true) ⊎ (e.value.ack_events ≡ 0)

pub ack-KeepsEvents : (sequence : ℕ) → KeepsEvents (λ v. (ack v sequence).0)
ack-KeepsEvents sequence = record {
  events = λ v. unfold ack in ground arith;
  valid = λ v. ack-IsValid v sequence;
}

pub set_resending-KeepsEvents : (b : Bool) → KeepsEvents (λ v. record v { resending = b })
set_resending-KeepsEvents b = record {
  events = λ v. refl;
  valid = λ v h. record { in_range = h.in_range; counted = h.counted };
}

pub reset-KeepsEvents : (b : Bool) → KeepsEvents (λ v. reset_sequence (record v { resending = b }))
reset-KeepsEvents b = record {
  events = λ v. unfold reset_sequence in refl;
  valid = λ v h.
      reset_sequence-IsValid (record v { resending = b })
        (record { in_range = h.in_range; counted = h.counted });
}

pub update-AllValid :
    (id : ℕ) (f : Payload → Payload) (list : List Element)
    → KeepsEvents f
    → AllValid list
    → AllValid (update id f list)
unfolding update
update-AllValid id f [] k v = tt
update-AllValid id f (e ∷ list) k (v, vs) = elim (Bool-cases (e.id == id)) [
  | inl same ↦ rw same (k.valid e.value v, update-AllValid id f list k vs)
  | inr other ↦ rw other (v, update-AllValid id f list k vs)
]

pub update-in_flight :
    (id : ℕ) (f : Payload → Payload) (list : List Element)
    → KeepsEvents f
    → in_flight (update id f list) ≡ in_flight list
unfolding update in_flight
update-in_flight id f [] k = refl
update-in_flight id f (e ∷ list) k = elim (Bool-cases (e.id == id)) [
  | inl same ↦
      rw same (rw (k.events e.value) (ap (◌++◌ e.value.events) (update-in_flight id f list k)))
  | inr other ↦ rw other (ap (◌++◌ e.value.events) (update-in_flight id f list k))
]

pub length-update :
    (id : ℕ) (f : Payload → Payload) (list : List Element) → length (update id f list) ≡ length list
unfolding update
length-update id f [] = refl
length-update id f (e ∷ list) = ap suc (length-update id f list)

pub update-IsReleased :
    (id : ℕ) (f : Payload → Payload) (list : List Element)
    → ((v : Payload) → (f v).ack_events ≡ v.ack_events)
    → IsReleased list
    → IsReleased (update id f list)
unfolding update
update-IsReleased id f [] k h = tt
update-IsReleased id f (e ∷ list) k h = elim (Bool-cases (e.id == id)) [
  | inl same ↦ rw same (k e.value ∙ h)
  | inr other ↦ rw other h
]

pub update-IsDue :
    (id : ℕ) (f : Payload → Payload) (list : List Element)
    → IsReleased list
    → IsDue id (update id f list)
unfolding update
update-IsDue id f [] h = tt
update-IsDue id f (e ∷ list) h = elim (Bool-cases (e.id == id)) [
  | inl same ↦ rw same (inl same)
  | inr other ↦ rw other (inr h)
]

pub update_again-IsDue :
    (id : ℕ) (f : Payload → Payload) (list : List Element)
    → IsDue id list
    → IsDue id (update id f list)
unfolding update
update_again-IsDue id f [] h = tt
update_again-IsDue id f (e ∷ list) h = elim (Bool-cases (e.id == id)) [
  | inl same ↦ rw same (inl same)
  | inr other ↦ rw other h
]

pub find-IsValid :
    (id : ℕ) (list : List Element) (v : Payload) → AllValid list → find id list ≡ some v → IsValid v
unfolding find
find-IsValid id [] v h e = cc
find-IsValid id (x ∷ list) v (h, hs) e = elim (Bool-cases (x.id == id)) [
  | inl same ↦ subst IsValid (ground arith) h
  | inr other ↦ find-IsValid id list v hs (ground arith)
]

pub find-length :
    (id : ℕ) (list : List Element) (v : Payload) → find id list ≡ some v → 1 ≤ length list
unfolding find
find-length id [] v e = cc
find-length id (x ∷ list) v e = omega arith
