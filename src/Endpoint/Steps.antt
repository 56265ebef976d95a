-- ===== src/Endpoint/Steps.antt =====
-- Every change of an endpoint's status (lc-lib/endpoint) keeps the lists of the sink as they should
-- be.
use log_courier.Common.{
  count-append, count, ℕ, ◌≡◌, refl, sym, ap, subst, inl, inr, Bool, false, Bool-cases,
  Option-cases, List, [], ◌∷◌, none, some, arith, ◌==◌, if◌then◌else◌, lookup, insert, delete,
  nat_eq, lookup-delete,
}
use log_courier.Endpoint.{
  Status, idle, active, failed, closing, Endpoint, Sink, Step, adds, starts, fails, finishes,
  resumes, shuts_down, has_payloads, new_sink, is_active, is_failed, is_closing, leave, set_status,
  add_endpoint, mark_active, move_failed, recover_failed, shutdown_endpoint, remove_endpoint,
  started, set_payloads, on, step, run,
}
use log_courier.Endpoint.Lists.{
  is_now, is_there, IsListed, count-remove, count-one, now-insert, there-insert, changed-IsListed,
  leave-count, leave-endpoints, leave-ordered, mark_active-IsListed,
}

pub move_failed-IsListed :
    (id : ℕ) (e : Endpoint) (status : Status) (s : Sink)
    → lookup id s.endpoints ≡ some e
    → e.status ≡ status
    → IsListed s
    → IsListed (move_failed id e s)
unfolding move_failed set_status
move_failed-IsListed id e idle s l q h = rw (q, move_failed) h
move_failed-IsListed id e active s l q h =
    let (r, f) = leave-count id active e s l q h in
    rw (q, move_failed)
      (changed-IsListed id e (record e { status = failed }) s _ l
        (ap (insert id _) (leave-endpoints id active s)) (leave-ordered id active s) r
        (λ j. unfold count in ground (arith, f j)) h)
move_failed-IsListed id e failed s l q h = rw (q, move_failed) h
move_failed-IsListed id e closing s l q h = rw (q, move_failed) h

pub recover_failed-IsListed :
    (id : ℕ) (e : Endpoint) (status : Status) (s : Sink)
    → lookup id s.endpoints ≡ some e
    → e.status ≡ status
    → IsListed s
    → IsListed (recover_failed id e s)
unfolding recover_failed set_status leave
recover_failed-IsListed id e idle s l q h = rw (q, recover_failed) h
recover_failed-IsListed id e active s l q h = rw (q, recover_failed) h
recover_failed-IsListed id e failed s l q h =
    let (r, f) = leave-count id failed e s l q h in
    rw (q, recover_failed)
      (changed-IsListed id e (record e { status = idle }) s _ l refl refl r f h)
recover_failed-IsListed id e closing s l q h = rw (q, recover_failed) h

closed-IsListed :
    (id : ℕ) (e : Endpoint) (status : Status) (s : Sink) (shut_down : List ℕ)
    → lookup id s.endpoints ≡ some e
    → e.status ≡ status
    → IsListed s
    → IsListed (record (set_status id e closing (leave id status s)) { shut_down = shut_down })
unfolding set_status
closed-IsListed id e status s shut_down l q h =
    let (r, f) = leave-count id status e s l q h in
    changed-IsListed id e (record e { status = closing }) s _ l
      (ap (insert id _) (leave-endpoints id status s)) (leave-ordered id status s) r f h

pub shutdown_endpoint-IsListed :
    (id : ℕ) (e : Endpoint) (s : Sink)
    → lookup id s.endpoints ≡ some e
    → IsListed s
    → IsListed (shutdown_endpoint id e s)
unfolding shutdown_endpoint
shutdown_endpoint-IsListed id e s l h =
    let s' = set_status id e closing (leave id e.status s) in
    elim (Bool-cases (is_closing e.status)) [
      | inl late ↦ rw (late, shutdown_endpoint) h
      | inr early ↦ elim (Bool-cases (e.num_payloads == 0)) [
        | inl done ↦
            rw (early, shutdown_endpoint)
              (rw (done, shutdown_endpoint) (closed-IsListed id e e.status s _ l refl h))
        | inr pending ↦
            rw (early, shutdown_endpoint)
              (rw (pending, shutdown_endpoint)
                (closed-IsListed id e e.status s s'.shut_down l refl h))
      ]
    ]

now-delete :
    (p : Status → Bool) (id j : ℕ) (s : Sink)
    → is_now p (lookup j (delete id s.endpoints))
      ≡ (if id == j then false else is_now p (lookup j s.endpoints))
now-delete p id j s = elim (Bool-cases (id == j)) [
  | inl same ↦ rw (lookup-delete id j s.endpoints) (rw same refl)
  | inr other ↦ rw (lookup-delete id j s.endpoints) (rw other refl)
]

there-delete :
    (id j : ℕ) (s : Sink)
    → is_there (lookup j (delete id s.endpoints))
      ≡ (if id == j then false else is_there (lookup j s.endpoints))
there-delete id j s = elim (Bool-cases (id == j)) [
  | inl same ↦ rw (lookup-delete id j s.endpoints) (rw same refl)
  | inr other ↦ rw (lookup-delete id j s.endpoints) (rw other refl)
]

pub remove_endpoint-IsListed :
    (id : ℕ) (e : Endpoint) (s : Sink)
    → lookup id s.endpoints ≡ some e
    → IsListed s
    → IsListed (remove_endpoint id e s)
unfolding remove_endpoint
remove_endpoint-IsListed id e s l h =
    let (r, f) = leave-count id e.status e s l refl h in
    let m = leave-endpoints id e.status s in
    let o = leave-ordered id e.status s in
    record {
      ready = λ j. rw m (ground (arith, r j, h.ready j, now-delete is_active id j s));
      failed = λ j. rw m (ground (arith, f j, h.failed j, now-delete is_failed id j s));
      ordered = λ j.
          rw (m, o)
            (ground (
              arith,
              l,
              h.ordered j,
              h.ordered id,
              there-delete id j s,
              count-remove j id s.ordered_list,
            ));
    }

pub add_endpoint-IsListed :
    (id : ℕ) (s : Sink) → lookup id s.endpoints ≡ none → IsListed s → IsListed (add_endpoint id s)
unfolding add_endpoint
add_endpoint-IsListed id s l h =
    let e : Endpoint = record { status = idle; num_payloads = 0 } in
    record {
      ready =
          λ j. ground (arith, l, h.ready j, h.ready id, now-insert is_active id j e s.endpoints);
      failed =
          λ j. ground (arith, l, h.failed j, h.failed id, now-insert is_failed id j e s.endpoints);
      ordered = λ j. ground (
        arith,
        l,
        h.ordered j,
        h.ordered id,
        there-insert id j e s.endpoints,
        count-append j s.ordered_list (id ∷ []),
        count-one id j,
      );
    }

pub set_payloads-IsListed :
    (n id : ℕ) (e : Endpoint) (s : Sink)
    → lookup id s.endpoints ≡ some e
    → IsListed s
    → IsListed (set_payloads n id e s)
unfolding set_payloads
set_payloads-IsListed n id e s l h =
    changed-IsListed id e (record e { num_payloads = n }) s _ l refl refl
      (λ j. ground (arith, l, h.ready id)) (λ j. ground (arith, l, h.failed id)) h

started-IsListed :
    (id : ℕ) (e : Endpoint) (s : Sink)
    → lookup id s.endpoints ≡ some e
    → IsListed s
    → IsListed (started id e s)
unfolding started
started-IsListed id e s l h =
    let choose : Bool → Sink = λ b. if b then recover_failed id e s else mark_active id e s in
    elim (Bool-cases (is_failed e.status)) [
      | inl down ↦
          subst IsListed (sym (ap choose down)) (recover_failed-IsListed id e e.status s l refl h)
      | inr up ↦ subst IsListed (sym (ap choose up)) (mark_active-IsListed id e e.status s l refl h)
    ]

pub on-IsListed :
    (f : ℕ → Endpoint → Sink → Sink) (id : ℕ) (s : Sink)
    → ((e : Endpoint) → lookup id s.endpoints ≡ some e → IsListed (f id e s))
    → IsListed s
    → IsListed (on f id s)
on-IsListed f id s k h = elim (Option-cases (lookup id s.endpoints)) [
  | inl e ↦ rw (e, on) h
  | inr (e, l) ↦ rw (l, on) (k e l)
]

step-IsListed : (st : Step) (s : Sink) → IsListed s → IsListed (step st s)
unfolding step
step-IsListed (adds id) s h = elim (Option-cases (lookup id s.endpoints)) [
  | inl l ↦ rw (l, step) (add_endpoint-IsListed id s l h)
  | inr (e, l) ↦ rw (l, step) h
]
step-IsListed (starts id) s h = on-IsListed started id s (λ e l. started-IsListed id e s l h) h
step-IsListed (fails id) s h =
    on-IsListed move_failed id s (λ e l. move_failed-IsListed id e e.status s l refl h) h
step-IsListed (finishes id) s h =
    on-IsListed remove_endpoint id s (λ e l. remove_endpoint-IsListed id e s l h) h
step-IsListed (resumes id) s h =
    on-IsListed mark_active id s (λ e l. mark_active-IsListed id e e.status s l refl h) h
step-IsListed (shuts_down id) s h =
    on-IsListed shutdown_endpoint id s (λ e l. shutdown_endpoint-IsListed id e s l h) h
step-IsListed (has_payloads id n) s h =
    on-IsListed (set_payloads n) id s (λ e l. set_payloads-IsListed n id e s l h) h

run-IsListed : (steps : List Step) (s : Sink) → IsListed s → IsListed (run steps s)
unfolding run
run-IsListed [] s h = h
run-IsListed (st ∷ steps) s h = run-IsListed steps (step st s) (step-IsListed st s h)

pub new_sink-IsListed : IsListed new_sink
unfolding new_sink count lookup
new_sink-IsListed = record { ready = λ j. refl; failed = λ j. refl; ordered = λ j. refl }

-- Where every endpoint is added by `AddEndpoint`, at the end of the ordered list, and none is moved in it:
-- whatever the transports report, and in whatever order endpoints are added, shut down and resumed,
-- the ready list has exactly the active endpoints, the failed list exactly those that failed, and
-- the ordered list all that are there, each once.
pub run-new_sink : (steps : List Step) → IsListed (run steps new_sink)
run-new_sink steps = run-IsListed steps new_sink new_sink-IsListed
