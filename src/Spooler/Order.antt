-- ===== src/Spooler/Order.antt =====
-- What the spooler (lc-lib/spooler/spooler.go) sends: the events in their order, none twice, and
-- none missing unless a configuration comes while a spool is sent.
use log_courier.Common.{
  ℕ, ◌+◌, ◌≡◌, refl, sym, ap, ◌∙◌, subst, inl, inr, Bool-cases, List, [], ◌∷◌, ◌++◌, length, leb,
  ◌&&◌, ◌||◌, append_assoc, append-nil,
}
use log_courier.Core.{EventDescriptor}
use log_courier.Spooler.{
  General, Spooler, Choice, Input, Outcome, going, stopped, waiting, taken, reconfigured, flush,
  event, timeout, configure, and_then, reset_timer, fresh_spool, reload_with, send_spool,
  reload_config, queue, step, run,
}

-- The events of the spools that were sent.
unfoldable pub events_of : List (List EventDescriptor) → List EventDescriptor
events_of [] = []
events_of (spool ∷ spools) = spool ++ events_of spools

-- All the events that the spooler was given and still has or has sent.
abbrev pub kept : Spooler → List EventDescriptor
kept s = events_of s.output ++ s.spool

-- The events of the inputs.
unfoldable pub given : List Input → List EventDescriptor
given [] = []
given (event e now ∷ inputs) = e ∷ given inputs
given (_ ∷ inputs) = given inputs

-- No configuration comes while a spool is sent.
abbrev pub IsSteady : List Choice → Type 0
IsSteady [] = Unit {0}
IsSteady (reconfigured _ _ _ ∷ cs) = ⊥
IsSteady (_ ∷ cs) = IsSteady cs

-- A call that goes on has kept these events, and its choices are steady; one that does not has sent
-- the first of them.
abbrev pub Keeps : List EventDescriptor → Outcome → Type 0
Keeps es (going s cs) = (kept s ≡ es) × IsSteady cs
Keeps es (stopped s) = (rest : List EventDescriptor) × (events_of s.output ++ rest ≡ es)
Keeps es (waiting s) = (rest : List EventDescriptor) × (events_of s.output ++ rest ≡ es)

events_of-append :
    (xs ys : List (List EventDescriptor)) → events_of (xs ++ ys) ≡ events_of xs ++ events_of ys
unfolding events_of
events_of-append [] ys = refl
events_of-append (x ∷ xs) ys = simp (events_of-append xs ys, append_assoc)

send_spool-Keeps : (cs : List Choice) (s : Spooler) → IsSteady cs → Keeps (kept s) (send_spool cs s)
unfolding send_spool fresh_spool events_of
send_spool-Keeps [] s h = (s.spool, refl)
send_spool-Keeps (Choice.shutdown ∷ cs) s h = (s.spool, refl)
send_spool-Keeps (reconfigured _ _ _ ∷ cs) s h = elim h [ ]
send_spool-Keeps (taken ∷ cs) s h = (simp (events_of-append, append-nil), h)

and_then-Keeps :
    (es more : List EventDescriptor) (r : Outcome) (next : Spooler → List Choice → Outcome)
    → Keeps es r
    → ((s : Spooler) (cs : List Choice)
        → kept s ≡ es
        → IsSteady cs
        → Keeps (es ++ more) (next s cs))
    → Keeps (es ++ more) (and_then r next)
unfolding and_then
and_then-Keeps es more (going s cs) next k h = h s cs k.0 k.1
and_then-Keeps es more (stopped s) next (rest, e) h =
    (rest ++ more, sym (append_assoc (events_of s.output) rest more) ∙ ap (λ es. es ++ more) e)
and_then-Keeps es more (waiting s) next (rest, e) h =
    (rest ++ more, sym (append_assoc (events_of s.output) rest more) ∙ ap (λ es. es ++ more) e)

and_then-Keeps_same :
    (es : List EventDescriptor) (r : Outcome) (f : Spooler → Spooler)
    → Keeps es r
    → ((s : Spooler) → kept (f s) ≡ kept s)
    → Keeps es (and_then r (λ s cs. going (f s) cs))
unfolding and_then
and_then-Keeps_same es (going s cs) f k h = (h s ∙ k.0, k.1)
and_then-Keeps_same es (stopped s) f k h = k
and_then-Keeps_same es (waiting s) f k h = k

reload_config-Keeps :
    (config : General) (now later : ℕ) (s : Spooler) (cs : List Choice)
    → IsSteady cs
    → Keeps (kept s) (reload_config config now later s cs)
unfolding reload_config reload_with reset_timer
reload_config-Keeps config now later s cs h =
    let s' = record s { config = config } in
    elim (Bool-cases
      (leb (s.timer_start + config.spool_timeout) now || leb config.spool_size (length s.spool))) [
        | inl due ↦ rw due (
            and_then-Keeps_same (kept s) (send_spool cs s') (reset_timer later)
              (send_spool-Keeps cs s' h) (λ sent. refl))
        | inr early ↦ rw early (refl, h)
      ]

queue-kept :
    (grow : ℕ → ℕ) (e : EventDescriptor) (s : Spooler) → kept (queue grow e s) ≡ kept s ++ e ∷ []
unfolding queue
queue-kept grow e s = sym (append_assoc (events_of s.output) s.spool (e ∷ []))

step-Keeps :
    (grow : ℕ → ℕ) (input : Input) (s : Spooler) (cs : List Choice)
    → IsSteady cs
    → Keeps (kept s ++ given (input ∷ [])) (step grow input s cs)
unfolding step given reset_timer
step-Keeps grow flush s cs h = elim (Bool-cases (leb 1 (length s.spool))) [
  | inl some_held ↦ rw (some_held, append-nil) (send_spool-Keeps cs s h)
  | inr none_held ↦ rw none_held (sym (append-nil _), h)
]
step-Keeps grow (event e now) s cs h =
    elim (Bool-cases (
      leb 1 (length s.spool)
      && leb s.config.spool_max_bytes (s.spool_size + length e.payload + 4))) [
        | inl large ↦ rw large (
            and_then-Keeps (kept s) (e ∷ []) (send_spool cs s)
              (λ sent rest. going (queue grow e (reset_timer now sent)) rest)
              (send_spool-Keeps cs s h)
              (λ sent rest k g.
                (queue-kept grow e (reset_timer now sent) ∙ ap (λ es. es ++ e ∷ []) k, g)))
        | inr fits ↦
            let s' = queue grow e s in
            elim (Bool-cases (leb s'.capacity (length s'.spool))) [
              | inl full ↦
                  rw (fits, full)
                    (and_then-Keeps_same (kept s ++ e ∷ []) (send_spool cs s') (reset_timer now)
                      (subst (λ es. Keeps es (send_spool cs s')) (queue-kept grow e s)
                        (send_spool-Keeps cs s' h))
                      (λ sent. refl))
              | inr room ↦ rw (fits, room) (queue-kept grow e s, h)
            ]
      ]
step-Keeps grow (timeout now) s cs h = elim (Bool-cases (leb 1 (length s.spool))) [
  | inl some_held ↦
      rw (some_held, append-nil)
        (and_then-Keeps_same (kept s) (send_spool cs s) (reset_timer now) (send_spool-Keeps cs s h)
          (λ sent. refl))
  | inr none_held ↦ rw none_held (sym (append-nil _), h)
]
step-Keeps grow Input.shutdown s cs h =
    (s.spool ++ [], sym (append_assoc (events_of s.output) s.spool []))
step-Keeps grow (configure config now later) s cs h =
    subst (λ es. Keeps es (reload_config config now later s cs)) (sym (append-nil (kept s)))
      (reload_config-Keeps config now later s cs h)

given-cons :
    (input : Input) (inputs : List Input)
    → given (input ∷ inputs) ≡ given (input ∷ []) ++ given inputs
unfolding given
given-cons flush inputs = refl
given-cons (event e now) inputs = refl
given-cons (timeout now) inputs = refl
given-cons Input.shutdown inputs = refl
given-cons (configure config now later) inputs = refl

-- If no configuration comes as a spool is sent, then the spools that were sent and the one at hand
-- hold, in order and each once, the events that the spooler had and all that it was given, however
-- spools are cut by size, bytes, timeouts, flushes and configurations. When it shuts down, or waits
-- for the publisher, the spools that were sent hold the first of these events.
pub run-Keeps :
    (grow : ℕ → ℕ) (inputs : List Input) (s : Spooler) (cs : List Choice)
    → IsSteady cs
    → Keeps (kept s ++ given inputs) (run grow inputs s cs)
unfolding run given
run-Keeps grow [] s cs h = (sym (append-nil _), h)
run-Keeps grow (input ∷ inputs) s cs h =
    subst (λ es. Keeps es (run grow (input ∷ inputs) s cs))
      (append_assoc (kept s) (given (input ∷ [])) (given inputs)
        ∙ ap (◌++◌ (kept s)) (sym (given-cons input inputs)))
      (and_then-Keeps (kept s ++ given (input ∷ [])) (given inputs) (step grow input s cs)
        (run grow inputs) (step-Keeps grow input s cs h)
        (λ s' rest k g.
          subst (λ es. Keeps (es ++ given inputs) (run grow inputs s' rest)) k
            (run-Keeps grow inputs s' rest g)))
