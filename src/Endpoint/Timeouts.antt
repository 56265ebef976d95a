-- ===== src/Endpoint/Timeouts.antt =====
-- The timeouts of lc-lib/endpoint/sink_timeout.go. A timeout is a number, with what its callback
-- registers; the list of the code is the list of its elements. A duration is given by the time at
-- which it ends, and the timer is the time for which it is set.
pub mod Armed
pub mod Due
use log_courier.Common.{
  ℕ, suc, ◌+◌, ◌≤◌, ◌≡◌, refl, sym, ap, ◌∙◌, Bool, true, false, Bool-cases, inl, inr, List, [], ◌∷◌,
  Option, none, some, arith, ltb, ◌==◌, ==_lem, if-Both, if◌then◌else◌,
}

pub record Timeout : Type 0 where
  pub id : ℕ
  pub due : ℕ

-- `armed` is that the timeout has a function.
pub record Timeouts : Type 0 where
  pub timeout_list : List Timeout
  pub armed : ℕ → Bool
  pub timer : Option ℕ
  pub fired : List ℕ

abbrev pub first_due : List Timeout → Option ℕ
first_due [] = none
first_due (t ∷ list) = some t.due

unfoldable pub new_timeouts : Timeouts
new_timeouts = record { timeout_list = []; armed = λ id. false; timer = none; fired = [] }

unfoldable pub reset_timeout_timer : Timeouts → Timeouts
reset_timeout_timer s = record s { timer = first_due s.timeout_list }

unfoldable pub without : ℕ → List Timeout → List Timeout
without id [] = []
without id (t ∷ list) = if t.id == id then list else t ∷ without id list

unfoldable pub clear_timeout : ℕ → Timeouts → Timeouts
unfolding without
clear_timeout id s = if s.armed id then record s { timeout_list = without id s.timeout_list } else s

-- The loop of `RegisterTimeout` and the insertion behind it.
unfoldable pub insert_due : Timeout → List Timeout → List Timeout
insert_due t [] = t ∷ []
insert_due t (existing ∷ list) =
    if ltb t.due existing.due then t ∷ existing ∷ list else existing ∷ insert_due t list

unfoldable pub register_timeout : Timeout → Timeouts → Timeouts
unfolding clear_timeout insert_due reset_timeout_timer
register_timeout t s =
    let s' = clear_timeout t.id s in
    reset_timeout_timer (record s' {
      timeout_list = insert_due t s'.timeout_list;
      armed = λ id. if t.id == id then true else s'.armed id;
    })

unfoldable pub register_all : List Timeout → Timeouts → Timeouts
unfolding register_timeout
register_all [] s = s
register_all (t ∷ timeouts) s = register_all timeouts (register_timeout t s)

-- What the code calls if the timeout that left the list has a function.
unfoldable pub fire : (callback : ℕ → List Timeout) → ℕ → Timeouts → Timeouts
unfolding register_all
fire callback id s =
    if s.armed id
    then register_all (callback id) (record s {
      armed = λ other. if id == other then false else s.armed other;
      fired = id ∷ s.fired;
    })
    else s

-- The loop of `ProcessTimeouts`: the clock is read after each timeout. Without a further reading
-- the loop still runs.
unfoldable pub process_from :
    (callback : ℕ → List Timeout) → (times : List ℕ) → Timeouts → List Timeout → Option Timeouts
unfolding fire reset_timeout_timer
process_from callback times s [] = some (reset_timeout_timer s)
process_from callback [] s (t ∷ list) = none
process_from callback (now ∷ times) s (t ∷ list) =
    let s' = fire callback t.id (record s { timeout_list = list }) in
    let more = process_from callback times s' s'.timeout_list in
    elim (first_due s'.timeout_list) [
      | none ↦ some (reset_timeout_timer s')
      | some due ↦ if ltb now due then some (reset_timeout_timer s') else more
    ]

-- `ProcessTimeouts`, which does nothing without a timeout.
unfoldable pub process_timeouts :
    (callback : ℕ → List Timeout) → (times : List ℕ) → Timeouts → Option Timeouts
unfolding process_from
process_timeouts callback times s = elim (first_due s.timeout_list) [
  | none ↦ some s
  | some due ↦ process_from callback times s s.timeout_list
]
