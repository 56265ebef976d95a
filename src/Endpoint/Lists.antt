-- ===== src/Endpoint/Lists.antt =====
-- The lists of the sink (lc-lib/endpoint) hold the endpoints that their statuses say.
use log_courier.Common.{
  ℕ, ◌-◌, ◌≡◌, refl, inl, inr, Bool, true, false, Bool-cases, List, [], ◌∷◌, Option, none, some,
  arith, ◌==◌, if◌then◌else◌, Assoc, lookup, insert, nat_eq, lookup-insert, count, count-append,
}
use log_courier.Endpoint.{
  Status, idle, active, failed, closing, Endpoint, Sink, is_active, is_failed, remove, leave,
  set_status, mark_active,
}

abbrev pub once : Bool → ℕ
once true = 1
once false = 0

abbrev pub is_now : (Status → Bool) → Option Endpoint → Bool
is_now p none = false
is_now p (some e) = p e.status

abbrev pub is_there : Option Endpoint → Bool
is_there none = false
is_there (some e) = true

pub record IsListed (s : Sink) : Type 0 where
  pub ready : (id : ℕ) → count id s.ready_list ≡ once (is_now is_active (lookup id s.endpoints))
  pub failed : (id : ℕ) → count id s.failed_list ≡ once (is_now is_failed (lookup id s.endpoints))
  pub ordered : (id : ℕ) → count id s.ordered_list ≡ once (is_there (lookup id s.endpoints))

pub count-remove :
    (id j : ℕ) (list : List ℕ)
    → count id (remove j list) ≡ (if j == id then count id list - 1 else count id list)
unfolding count remove
count-remove id j [] = ground arith
count-remove id j (x ∷ list) = ground (arith, count-remove id j list)

-- What a changed entry says of each server.
pub now-insert :
    (p : Status → Bool) (id j : ℕ) (e : Endpoint) (m : Assoc ℕ Endpoint)
    → is_now p (lookup j (insert id e m)) ≡ (if id == j then p e.status else is_now p (lookup j m))
now-insert p id j e m = elim (Bool-cases (id == j)) [
  | inl same ↦ rw (lookup-insert id j e m) (rw same refl)
  | inr other ↦ rw (lookup-insert id j e m) (rw other refl)
]

pub there-insert :
    (id j : ℕ) (e : Endpoint) (m : Assoc ℕ Endpoint)
    → is_there (lookup j (insert id e m)) ≡ (if id == j then true else is_there (lookup j m))
there-insert id j e m = elim (Bool-cases (id == j)) [
  | inl same ↦ rw (lookup-insert id j e m) (rw same refl)
  | inr other ↦ rw (lookup-insert id j e m) (rw other refl)
]

pub count-one : (id j : ℕ) → count j (id ∷ []) ≡ once (id == j)
unfolding count
count-one id j = ground arith

-- An endpoint whose status changes, with the lists as they are to be.
pub changed-IsListed :
    (id : ℕ) (e e' : Endpoint) (s s' : Sink)
    → lookup id s.endpoints ≡ some e
    → s'.endpoints ≡ insert id e' s.endpoints
    → s'.ordered_list ≡ s.ordered_list
    → ((j : ℕ)
        → count j s'.ready_list
          ≡ (if id == j then once (is_active e'.status) else count j s.ready_list))
    → ((j : ℕ)
        → count j s'.failed_list
          ≡ (if id == j then once (is_failed e'.status) else count j s.failed_list))
    → IsListed s
    → IsListed s'
changed-IsListed id e e' s s' l m o r f h = record {
  ready = λ j. ground (arith, r j, h.ready j, m, now-insert is_active id j e' s.endpoints);
  failed = λ j. ground (arith, f j, h.failed j, m, now-insert is_failed id j e' s.endpoints);
  ordered =
      λ j. ground (arith, o, h.ordered j, h.ordered id, m, l, there-insert id j e' s.endpoints);
}

-- The lists without an endpoint that leaves its status.
pub leave-count :
    (id : ℕ) (status : Status) (e : Endpoint) (s : Sink)
    → lookup id s.endpoints ≡ some e
    → e.status ≡ status
    → IsListed s
    → ((j : ℕ)
        → count j (leave id status s).ready_list ≡ (if id == j then 0 else count j s.ready_list))
      × ((j : ℕ)
          → count j (leave id status s).failed_list
            ≡ (if id == j then 0 else count j s.failed_list))
unfolding leave
leave-count id idle e s l q h =
    (λ j. ground (arith, h.ready id, l, q), λ j. ground (arith, h.failed id, l, q))
leave-count id active e s l q h = (
  λ j. ground (arith, h.ready id, l, q, count-remove j id s.ready_list),
  λ j. ground (arith, h.failed id, l, q),
)
leave-count id failed e s l q h = (
  λ j. ground (arith, h.ready id, l, q),
  λ j. ground (arith, h.failed id, l, q, count-remove j id s.failed_list),
)
leave-count id closing e s l q h =
    (λ j. ground (arith, h.ready id, l, q), λ j. ground (arith, h.failed id, l, q))

pub leave-endpoints :
    (id : ℕ) (status : Status) (s : Sink) → (leave id status s).endpoints ≡ s.endpoints
unfolding leave
leave-endpoints id idle s = refl
leave-endpoints id active s = refl
leave-endpoints id failed s = refl
leave-endpoints id closing s = refl

pub leave-ordered :
    (id : ℕ) (status : Status) (s : Sink) → (leave id status s).ordered_list ≡ s.ordered_list
unfolding leave
leave-ordered id idle s = refl
leave-ordered id active s = refl
leave-ordered id failed s = refl
leave-ordered id closing s = refl

pub mark_active-IsListed :
    (id : ℕ) (e : Endpoint) (status : Status) (s : Sink)
    → lookup id s.endpoints ≡ some e
    → e.status ≡ status
    → IsListed s
    → IsListed (mark_active id e s)
unfolding mark_active set_status
mark_active-IsListed id e idle s l q h =
    rw (q, mark_active)
      (changed-IsListed id e (record e { status = active }) s _ l refl refl
        (λ j.
          ground (arith, h.ready id, l, q, count-append j s.ready_list (id ∷ []), count-one id j))
        (λ j. ground (arith, h.failed id, l, q)) h)
mark_active-IsListed id e active s l q h = rw (q, mark_active) h
mark_active-IsListed id e failed s l q h = rw (q, mark_active) h
mark_active-IsListed id e closing s l q h = rw (q, mark_active) h
