-- ===== src/Publisher/Delivery/Stuck.antt =====
-- Payloads that wait at an endpoint whose timeout passed (lc-lib/publisher, timeoutPending).
use log_courier.Common.{
  ℕ, ◌≡◌, refl, ap, ◌∙◌, false, List, [], ◌∷◌, none, some, ◌==◌, if-true, if-false, lookup, nat_eq,
  lookup-insert, beq_refl,
}
use log_courier.Endpoint.{
  Status, idle, active, failed as is_now_failed, Endpoint, Sink, leave, set_status, mark_active,
  move_failed, recover_failed, on,
}
use log_courier.Publisher.Delivery.{
  Delivery, Answers, force_failure, failed, marked_active, started, resumed,
}
use log_courier.Publisher.Delivery.Steps.{times_out, fails, starts, resumes, step, run}

-- What stays as it was, and the status of the endpoint.
pub record Waits (e : ℕ) (ep : Endpoint) (status : Status) (d d' : Delivery) : Type 0 where
  pub publisher : d'.publisher ≡ d.publisher
  pub pending : d'.pending ≡ d.pending
  pub found : lookup e d'.sink.endpoints ≡ some (record ep { status = status })

lookup-set_status :
    (e : ℕ) (ep : Endpoint) (status : Status) (s : Sink)
    → lookup e (set_status e ep status s).endpoints ≡ some (record ep { status = status })
unfolding set_status
lookup-set_status e ep status s =
    lookup-insert e e (record ep { status = status }) s.endpoints
    ∙ if-true (e == e) _ _ (beq_refl e)

forced :
    (e : ℕ) (ep : Endpoint) (d : Delivery)
    → lookup e d.sink.endpoints ≡ some (record ep { status = active })
    → Waits e ep is_now_failed d (force_failure e d)
unfolding force_failure move_failed
forced e ep d l = record {
  publisher = refl;
  pending = refl;
  found =
      rw (l, on)
        (lookup-set_status e (record ep { status = active }) is_now_failed (leave e active d.sink));
}

not_alive :
    (a : Answers) (first : List ℕ) (e : ℕ) (ep : Endpoint) (d d' : Delivery)
    → Waits e ep is_now_failed d d'
    → failed a first e d' ≡ some d'
unfolding failed
not_alive a first e ep d d' w = rw (w.found, failed) refl

recovered :
    (a : Answers) (e : ℕ) (ep : Endpoint) (d d' : Delivery)
    → Waits e ep is_now_failed d d'
    → (d'' : Delivery) × (started a e d' ≡ some d'') × Waits e ep idle d d''
unfolding started recover_failed leave
recovered a e ep d d' w =
    let fp = record ep { status = is_now_failed } in
    (
      record d' { sink = recover_failed e fp d'.sink },
      rw (w.found, started) refl,
      record {
        publisher = w.publisher;
        pending = w.pending;
        found = lookup-set_status e fp idle d'.sink;
      },
    )

active_again :
    (a : Answers) (e : ℕ) (ep : Endpoint) (d d' : Delivery)
    → (ep.num_payloads == 0) ≡ false
    → Waits e ep idle d d'
    → (d'' : Delivery) × (resumed a e d' ≡ some d'') × Waits e ep active d d''
unfolding resumed marked_active mark_active
active_again a e ep d d' n w =
    let ip = record ep { status = idle } in
    (
      record d' { sink = mark_active e ip d'.sink },
      rw (w.found, resumed) (if-false (ep.num_payloads == 0) _ _ n),
      record {
        publisher = w.publisher;
        pending = w.pending;
        found = lookup-set_status e ip active d'.sink;
      },
    )

-- An endpoint with pending payloads whose timeout passes is failed, its transport reports the
-- failure and starts anew, and the backoff ends: then the endpoint is active again and still has
-- the payloads, of which none was given back to the publisher.
pub run-times_out :
    (a : Answers) (first : List ℕ) (e : ℕ) (ep : Endpoint) (d : Delivery)
    → lookup e d.sink.endpoints ≡ some (record ep { status = active })
    → (ep.num_payloads == 0) ≡ false
    → (d' : Delivery) × (run (times_out e ∷ fails a first e ∷ starts a e ∷ resumes a e ∷ []) d
        ≡ some d')
      × Waits e ep active d d'
unfolding run step
run-times_out a first e ep d l n =
    let d₁ = force_failure e d in
    let w₁ = forced e ep d l in
    let (d₂, q, w₂) = recovered a e ep d d₁ w₁ in
    let (d₃, r, w₃) = active_again a e ep d d₂ n w₂ in
    (
      d₃,
      ap (λ o. elim o [ none ↦ none | some next ↦ run (starts a e ∷ resumes a e ∷ []) next ])
            (not_alive a first e ep d d₁ w₁)
          ∙ ap (λ o. elim o [ none ↦ none | some next ↦ run (resumes a e ∷ []) next ]) q
          ∙ ap (λ o. elim o [ none ↦ none | some next ↦ run [] next ]) r,
      w₃,
    )
