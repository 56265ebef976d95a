-- ===== src/Endpoint/Timeouts/Due.antt =====
-- The timeouts of lc-lib/endpoint/sink_timeout.go are kept by their times, and no due one is left.
use log_courier.Common.{
  ℕ, ◌≤◌, ◌<◌, ◌≡◌, refl, ap, ◌∙◌, Bool-cases, inl, inr, List, [], ◌∷◌, ◌++◌, none, some, arith,
  ltb, ltb→lt, ◌==◌, if-Both, if-true, if-false, if◌then◌else◌, count, length,
}
use log_courier.Endpoint.Timeouts.{
  Timeout, Timeouts, first_due, reset_timeout_timer, without, clear_timeout, insert_due,
  register_timeout, register_all, fire, process_from, process_timeouts, new_timeouts,
}
use log_courier.Endpoint.Timeouts.Armed.{IsMatched, register_all-IsMatched, IsFired, fire-IsFired}

abbrev AtLeast : ℕ → List Timeout → Type 0
AtLeast d [] = Unit
AtLeast d (t ∷ list) = d ≤ t.due

abbrev pub IsSorted : List Timeout → Type 0
IsSorted [] = Unit
IsSorted (t ∷ list) = AtLeast t.due list × IsSorted list

abbrev pub IsLater : ℕ → List Timeout → Type 0
IsLater now [] = Unit
IsLater now (t ∷ list) = (now < t.due) × IsLater now list

insert_due-AtLeast :
    (d : ℕ) (t : Timeout) (list : List Timeout)
    → d ≤ t.due
    → AtLeast d list
    → AtLeast d (insert_due t list)
unfolding insert_due
insert_due-AtLeast d t [] h k = h
insert_due-AtLeast d t (u ∷ list) h k =
    if-Both (AtLeast d) (ltb t.due u.due) (t ∷ u ∷ list) (u ∷ insert_due t list) (λ e. h) (λ e. k)

insert_due-IsSorted :
    (t : Timeout) (list : List Timeout) → IsSorted list → IsSorted (insert_due t list)
unfolding insert_due
insert_due-IsSorted t [] h = (tt, tt)
insert_due-IsSorted t (u ∷ list) (a, h) =
    if-Both IsSorted (ltb t.due u.due) (t ∷ u ∷ list) (u ∷ insert_due t list)
      (λ e. (ground (arith, e), (a, h)))
      (λ e. (insert_due-AtLeast u.due t list (ground (arith, e)) a, insert_due-IsSorted t list h))

without-AtLeast :
    (d id : ℕ) (list : List Timeout) → IsSorted list → AtLeast d list → AtLeast d (without id list)
unfolding without
without-AtLeast d id [] h k = tt
without-AtLeast d id (t ∷ []) h k = if-Both (AtLeast d) (t.id == id) [] (t ∷ []) (λ e. tt) (λ e. k)
without-AtLeast d id (t ∷ u ∷ list) (a, h) k =
    if-Both (AtLeast d) (t.id == id) (u ∷ list) (t ∷ without id (u ∷ list))
      (λ e. omega (arith, a, k)) (λ e. k)

without-IsSorted : (id : ℕ) (list : List Timeout) → IsSorted list → IsSorted (without id list)
unfolding without
without-IsSorted id [] h = tt
without-IsSorted id (t ∷ list) (a, h) =
    if-Both IsSorted (t.id == id) list (t ∷ without id list) (λ e. h)
      (λ e. (without-AtLeast t.due id list h a, without-IsSorted id list h))

register_timeout-IsSorted :
    (t : Timeout) (s : Timeouts)
    → IsSorted s.timeout_list
    → IsSorted (register_timeout t s).timeout_list
unfolding register_timeout clear_timeout reset_timeout_timer
register_timeout-IsSorted t s h = insert_due-IsSorted t (clear_timeout t.id s).timeout_list (
    if-Both (λ q. IsSorted q.timeout_list) (s.armed t.id)
      (record s { timeout_list = without t.id s.timeout_list }) s
      (λ e. without-IsSorted t.id s.timeout_list h) (λ e. h))

register_all-IsSorted :
    (timeouts : List Timeout) (s : Timeouts)
    → IsSorted s.timeout_list
    → IsSorted (register_all timeouts s).timeout_list
unfolding register_all
register_all-IsSorted [] s h = h
register_all-IsSorted (t ∷ timeouts) s h =
    register_all-IsSorted timeouts (register_timeout t s) (register_timeout-IsSorted t s h)

sorted-IsLater :
    (now : ℕ) (t : Timeout) (list : List Timeout)
    → now < t.due
    → IsSorted (t ∷ list)
    → IsLater now (t ∷ list)
sorted-IsLater now t [] l h = (l, tt)
sorted-IsLater now t (u ∷ list) l (a, h) = (l, sorted-IsLater now u list (omega (arith, l, a)) h)

-- What is called, the last of which comes first in `fired`.
abbrev pub fired_by : List Timeout → List ℕ → List ℕ
fired_by [] fired = fired
fired_by (t ∷ list) fired = fired_by list (t.id ∷ fired)

-- Each was due at a time that the clock showed.
abbrev pub AllDue : (times : List ℕ) → List Timeout → Type 0
AllDue times [] = Unit
AllDue times (t ∷ list) = ((now : ℕ) × (1 ≤ count now times) × (t.due ≤ now)) × AllDue times list

-- What the loop makes of a list: it calls the first and some more, all of which are due, and keeps the
-- rest, all of which are later than a time that the clock showed.
pub record IsDone (times : List ℕ) (t : Timeout) (list : List Timeout) (s s' : Timeouts)
    : Type 0 where
  pub more : List Timeout
  pub kept : List Timeout
  pub parted : list ≡ more ++ kept
  pub fired : s'.fired ≡ fired_by (t ∷ more) s.fired
  pub due : AllDue times more
  pub left : s'.timeout_list ≡ kept
  pub matched : IsMatched s'.armed kept
  pub timer : s'.timer ≡ first_due kept
  pub now : ℕ
  pub read : 1 ≤ count now times
  pub later : IsLater now kept

AllDue-cons :
    (now : ℕ) (times : List ℕ) (list : List Timeout) → AllDue times list → AllDue (now ∷ times) list
unfolding count
AllDue-cons now times [] h = tt
AllDue-cons now times (t ∷ list) ((shown, read, due), h) =
    ((shown, ground (arith, read), due), AllDue-cons now times list h)

stopped-IsDone :
    (now : ℕ) (times : List ℕ) (t : Timeout) (list : List Timeout) (s q : Timeouts)
    → IsFired t list s q
    → IsLater now list
    → IsDone (now ∷ times) t list s (reset_timeout_timer q)
unfolding reset_timeout_timer count
stopped-IsDone now times t list s q f l = record {
  more = [];
  kept = list;
  parted = refl;
  fired = f.called;
  due = tt;
  left = f.left;
  matched = f.matched;
  timer = ap first_due f.left;
  now = now;
  read = ground arith;
  later = l;
}

longer-IsDone :
    (now : ℕ) (times : List ℕ) (t u : Timeout) (list : List Timeout) (s q s' : Timeouts)
    → u.due ≤ now
    → IsFired t (u ∷ list) s q
    → IsDone times u list q s'
    → IsDone (now ∷ times) t (u ∷ list) s s'
unfolding count
longer-IsDone now times t u list s q s' reached f d = record {
  more = u ∷ d.more;
  kept = d.kept;
  parted = ap (◌∷◌ u) d.parted;
  fired = d.fired ∙ ap (fired_by (u ∷ d.more)) f.called;
  due = ((now, ground arith, reached), AllDue-cons now times d.more d.due);
  left = d.left;
  matched = d.matched;
  timer = d.timer;
  now = d.now;
  read = ground (arith, d.read);
  later = d.later;
}

process_from-IsDone :
    (callback : ℕ → List Timeout) (times : List ℕ) (t : Timeout) (list : List Timeout)
    (s : Timeouts)
    → ((id : ℕ) → callback id ≡ [])
    → IsSorted (t ∷ list)
    → IsMatched s.armed (t ∷ list)
    → length (t ∷ list) ≤ length times
    → (s' : Timeouts) × (process_from callback times s (t ∷ list) ≡ some s')
      × IsDone times t list s s'
unfolding process_from
process_from-IsDone callback [] t list s e h m l = absurd (omega (arith, l))
process_from-IsDone callback (now ∷ times) t [] s e h m l =
    let q = fire callback t.id (record s { timeout_list = [] }) in
    let f = fire-IsFired callback t [] s (e t.id) m in
    (
      reset_timeout_timer q,
      ap
          (λ rest. elim (first_due rest) [
            | none ↦ some (reset_timeout_timer q)
            | some due ↦
                if ltb now due
                then some (reset_timeout_timer q)
                else process_from callback times q rest
          ])
          f.left,
      stopped-IsDone now times t [] s q f tt,
    )
process_from-IsDone callback (now ∷ times) t (u ∷ list) s e (a, h) m l =
    let q = fire callback t.id (record s { timeout_list = u ∷ list }) in
    let f = fire-IsFired callback t (u ∷ list) s (e t.id) m in
    let round =
      ap
        (λ rest. elim (first_due rest) [
          | none ↦ some (reset_timeout_timer q)
          | some due ↦
              if ltb now due
              then some (reset_timeout_timer q)
              else process_from callback times q rest
        ])
        f.left in
    elim (Bool-cases (ltb now u.due)) [
      | inl before ↦ (
        reset_timeout_timer q,
        round ∙ if-true (ltb now u.due) _ _ before,
        stopped-IsDone now times t (u ∷ list) s q f
            (sorted-IsLater now u list (ltb→lt now u.due before) h),
      )
      | inr reached ↦
          (let (s', p, d) =
              process_from-IsDone callback times u list q e h f.matched (omega (arith, l)) in
            (
              s',
              round ∙ if-false (ltb now u.due) _ _ reached ∙ p,
              longer-IsDone now times t u list s q s' (ground (arith, reached)) f d,
            ))
    ]

-- What becomes of the timeouts in the list.
abbrev pub Processed : (times : List ℕ) → List Timeout → Timeouts → Timeouts → Type 0
Processed times [] s s' = s' ≡ s
Processed times (t ∷ list) s s' = IsDone times t list s s'

processed :
    (callback : ℕ → List Timeout) (times : List ℕ) (s : Timeouts) (list : List Timeout)
    → s.timeout_list ≡ list
    → ((id : ℕ) → callback id ≡ [])
    → IsSorted list
    → IsMatched s.armed list
    → length list ≤ length times
    → (s' : Timeouts) × (process_timeouts callback times s ≡ some s') × Processed times list s s'
unfolding process_timeouts process_from
processed callback times s [] e c h m l = (
  s,
  ap
      (λ list. elim (first_due list) [
        | none ↦ some s
        | some due ↦ process_from callback times s list
      ])
      e,
  refl,
)
processed callback times s (t ∷ list) e c h m l =
    let (s', p, d) = process_from-IsDone callback times t list s c h m l in
    (
      s',
      ap
            (λ list. elim (first_due list) [
              | none ↦ some s
              | some due ↦ process_from callback times s list
            ])
            e
          ∙ p,
      d,
    )

-- In whatever order timeouts were registered, the list is in the order of their times, and an endpoint
-- stands in it exactly if its timeout has a function, and then once. If the callbacks register none and
-- the clock can be read once for each timeout, the processing returns. Without a timeout nothing
-- changes. Else the callbacks of a first part of the list are called, each once and in order, and no
-- others: that of the first timeout, for which the timer was set, and those of timeouts behind it, each
-- due at a time that the clock showed. These are no longer armed, the rest of the list is kept and is
-- later than a time that the clock showed, and the timer is set for its first.
pub process_timeouts-IsDone :
    (timeouts : List Timeout) (callback : ℕ → List Timeout) (times : List ℕ)
    → ((id : ℕ) → callback id ≡ [])
    → length (register_all timeouts new_timeouts).timeout_list ≤ length times
    → IsSorted (register_all timeouts new_timeouts).timeout_list
      × IsMatched
          (register_all timeouts new_timeouts).armed
          (register_all timeouts new_timeouts).timeout_list
      × ((s : Timeouts) × (process_timeouts callback times (register_all timeouts new_timeouts)
            ≡ some s)
          × Processed times
              (register_all timeouts new_timeouts).timeout_list
              (register_all timeouts new_timeouts)
              s)
process_timeouts-IsDone timeouts callback times c l =
    let s = register_all timeouts new_timeouts in
    let h = register_all-IsSorted timeouts new_timeouts (unfold new_timeouts in tt) in
    let m = register_all-IsMatched timeouts new_timeouts (unfold new_timeouts count in λ j. refl) in
    (h, m, processed callback times s s.timeout_list refl c h m l)
