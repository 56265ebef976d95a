-- ===== src/Spooler/Rounds.antt =====
-- The rounds of lc-lib/spooler/spooler.go keep each spool within the limits.
use log_courier.Common.{
  ℕ, ◌+◌, ◌<◌, ◌≡◌, refl, inl, inr, true, Bool-cases, List, [], ◌∷◌, length, leb, ◌&&◌, arith,
  leb→le,
}
use log_courier.Spooler.{
  General, Spooler, Choice, Input, Outcome, going, stopped, waiting, flush, event, timeout,
  configure, and_then, reset_timer, send_spool, queue, step, run, new_spooler,
}
use log_courier.Spooler.Order.{IsSteady}
use log_courier.Spooler.Limits.{
  bytes_of, AllFit, IsQuiet, IsValid, Within, sent_by, send_spool-IsEmptied, and_then-Within,
  IsEmptied-Within, reset_timer-IsValid, Fits-of, length-queue, capacity-queue, queue-small,
  queue-IsValid, queue-Fits, requeue-IsValid,
}

step-Within :
    (grow : ℕ → ℕ) (c : General) (input : Input) (s : Spooler) (cs : List Choice)
    → 0 < c.spool_size
    → IsQuiet (input ∷ [])
    → IsSteady cs
    → IsValid c s
    → Within c (step grow input s cs)
unfolding step
step-Within grow c flush s cs p q h v = elim (Bool-cases (leb 1 (length s.spool))) [
  | inl some_held ↦ rw some_held (
      IsEmptied-Within c _
        (send_spool-IsEmptied c cs s v.config p (Fits-of c s v some_held) v.sent h))
  | inr none_held ↦ rw none_held (v, h)
]
step-Within grow c (event e now) s cs p q h v =
    elim (Bool-cases (
      leb 1 (length s.spool)
      && leb s.config.spool_max_bytes (s.spool_size + length e.payload + 4))) [
        | inl large ↦
            let some_held : leb 1 (length s.spool) ≡ true = ground arith in
            rw large (
              and_then-Within c (send_spool cs s) (λ sent. queue grow e (reset_timer now sent))
                (send_spool-IsEmptied c cs s v.config p (Fits-of c s v some_held) v.sent h)
                (λ sent w empty.
                  requeue-IsValid grow c e now sent (omega (arith, leb→le _ _ some_held, v.room)) w
                    empty))
        | inr small ↦
            let s' = queue grow e s in
            let fits = queue-small grow c e s v small in
            elim (Bool-cases (leb s'.capacity (length s'.spool))) [
              | inl full ↦
                  rw (small, full)
                    (and_then-Within c (send_spool cs s') (reset_timer now)
                      (send_spool-IsEmptied c cs s' (unfold queue in v.config) p
                        (queue-Fits grow c e s v fits) (unfold queue in v.sent) h)
                      (λ sent w empty. reset_timer-IsValid c now sent w))
              | inr room ↦
                  let l = length-queue grow e s in
                  let k = capacity-queue grow c e s v in
                  rw (small, room) (queue-IsValid grow c e s v (ground arith) fits, h)
            ]
      ]
step-Within grow c (timeout now) s cs p q h v = elim (Bool-cases (leb 1 (length s.spool))) [
  | inl some_held ↦ rw some_held (
      and_then-Within c (send_spool cs s) (reset_timer now)
        (send_spool-IsEmptied c cs s v.config p (Fits-of c s v some_held) v.sent h)
        (λ sent w empty. reset_timer-IsValid c now sent w))
  | inr none_held ↦ rw none_held (unfold and_then in (reset_timer-IsValid c now s v, h))
]
step-Within grow c Input.shutdown s cs p q h v = v.sent
step-Within grow c (configure config now later) s cs p q h v = elim q [ ]

and_then_run :
    (c : General) (r : Outcome) (next : Spooler → List Choice → Outcome)
    → Within c r
    → ((s : Spooler) (cs : List Choice) → IsValid c s → IsSteady cs → Within c (next s cs))
    → Within c (and_then r next)
unfolding and_then
and_then_run c (going s cs) next (v, h) k = k s cs v h
and_then_run c (stopped s) next v k = v
and_then_run c (waiting s) next v k = v

IsQuiet-cons :
    (input : Input) (inputs : List Input)
    → IsQuiet (input ∷ inputs)
    → IsQuiet (input ∷ []) × IsQuiet inputs
IsQuiet-cons flush inputs q = (tt, q)
IsQuiet-cons (event e now) inputs q = (tt, q)
IsQuiet-cons (timeout now) inputs q = (tt, q)
IsQuiet-cons Input.shutdown inputs q = (tt, q)
IsQuiet-cons (configure config now later) inputs q = elim q [ ]

run-Within :
    (grow : ℕ → ℕ) (c : General) (inputs : List Input) (s : Spooler) (cs : List Choice)
    → 0 < c.spool_size
    → IsQuiet inputs
    → IsSteady cs
    → IsValid c s
    → Within c (run grow inputs s cs)
unfolding run
run-Within grow c [] s cs p q h v = (v, h)
run-Within grow c (input ∷ inputs) s cs p q h v =
    let (q₀, q₁) = IsQuiet-cons input inputs q in
    and_then_run c (step grow input s cs) (run grow inputs) (step-Within grow c input s cs p q₀ h v)
      (λ s' cs' w g. run-Within grow c inputs s' cs' p q₁ g w)

sent_by-Within : (c : General) (r : Outcome) → Within c r → AllFit c (sent_by r)
sent_by-Within c (going s cs) (v, h) = v.sent
sent_by-Within c (stopped s) v = v
sent_by-Within c (waiting s) v = v

-- While the configuration stays as it is, with a spool size of at least one, each spool that a new
-- spooler sends has an event, has no more events than the spool size, and is below the limit of
-- bytes, headers included, unless it is one event alone.
pub run-new_spooler :
    (grow : ℕ → ℕ) (c : General) (now : ℕ) (inputs : List Input) (cs : List Choice)
    → 0 < c.spool_size
    → IsQuiet inputs
    → IsSteady cs
    → AllFit c (sent_by (run grow inputs (new_spooler c now) cs))
unfolding new_spooler bytes_of
run-new_spooler grow c now inputs cs p q h = sent_by-Within c _ (
    run-Within grow c inputs (new_spooler c now) cs p q h (record {
      config = refl;
      capacity = refl;
      room = p;
      counted = refl;
      fits = inl (omega arith);
      sent = tt;
    }))
