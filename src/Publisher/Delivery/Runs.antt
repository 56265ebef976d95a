-- ===== src/Publisher/Delivery/Runs.antt =====
-- Any run of the publisher of lc-lib/publisher/publisher.go on its sink.
use log_courier.Common.{
  ℕ, ◌≡◌, refl, sym, ap, ◌∙◌, subst, inl, inr, Bool, true, false, Option-cases, not, List, [], ◌∷◌,
  ◌++◌, Option, none, some, if-true, lookup, nat_eq, append-nil, append_assoc,
}
use log_courier.Core.{EventDescriptor}
use log_courier.Payload.{Payload}
use log_courier.Endpoint.{add_endpoint, move_failed, shutdown_endpoint, on}
use log_courier.Endpoint.Lists.{IsListed}
use log_courier.Endpoint.Steps.{
  move_failed-IsListed, shutdown_endpoint-IsListed, add_endpoint-IsListed, on-IsListed,
  new_sink-IsListed,
}
use log_courier.Prospector.State.{mem}
use log_courier.Publisher.{new_publisher, find}
use log_courier.Publisher.Delivery.{Delivery, new_delivery, force_failure}
use log_courier.Publisher.Delivery.Steps.{
  Step, adds, closes, times_out, takes, acknowledges, fails, starts, resumes, finishes, shuts_down,
  takes_spools, step, run,
}
use log_courier.Publisher.Delivery.Sending.{held, Accounts, Accepts, take_spool-Returns}
use log_courier.Publisher.Release.{flat, in_flight}
use log_courier.Publisher.Delivery.Accounts.{
  Accounted, set_sink, failed-Accounted, started-Accounted, resumed-Accounted,
}
use log_courier.Publisher.Delivery.Order.{acknowledge-Accounted, finished-Accounted}

-- The transports take every payload that is written to them; a spool is taken when the publisher reads its channel; a
-- payload that an endpoint acknowledges and has is one of the publisher's; and there is no shutdown.
abbrev pub IsFair : Step → Delivery → Type 0
IsFair (adds e) d = Unit {0}
IsFair (closes e) d = Unit {0}
IsFair (times_out e) d = Unit {0}
IsFair (takes a events) d = Accepts a × (takes_spools d ≡ true)
IsFair (acknowledges a e id sequence) d =
    Accepts a
    × (mem id (d.pending e) ≡ true
        → (value : Payload) × (find id d.publisher.payload_list ≡ some value))
IsFair (fails a first e) d = Accepts a
IsFair (starts a e) d = Accepts a
IsFair (resumes a e) d = Accepts a
IsFair (finishes a first configured again e) d = Accepts a
IsFair (shuts_down endpoints) d = true ≡ false

abbrev pub AllFair : List Step → Delivery → Type 0
AllFair [] d = Unit {0}
AllFair (st ∷ steps) d =
    IsFair st d × ((next : Delivery) → step st d ≡ some next → AllFair steps next)

-- The spools of the steps.
unfoldable pub taken_by : List Step → List EventDescriptor
taken_by [] = []
taken_by (takes a events ∷ steps) = events ++ taken_by steps
taken_by (_ ∷ steps) = taken_by steps

unfoldable pub taken_in : Step → List EventDescriptor
taken_in (takes a events) = events
taken_in _ = []

taken_by-cons :
    (st : Step) (steps : List Step) → taken_by (st ∷ steps) ≡ taken_in st ++ taken_by steps
unfolding taken_by taken_in
taken_by-cons (takes a events) steps = refl
taken_by-cons (adds e) steps = refl
taken_by-cons (closes e) steps = refl
taken_by-cons (times_out e) steps = refl
taken_by-cons (acknowledges a e id sequence) steps = refl
taken_by-cons (fails a first e) steps = refl
taken_by-cons (starts a e) steps = refl
taken_by-cons (resumes a e) steps = refl
taken_by-cons (finishes a first configured again e) steps = refl
taken_by-cons (shuts_down endpoints) steps = refl

with_none :
    (taken : List EventDescriptor) (o : Option Delivery)
    → Accounted taken o
    → Accounted (taken ++ []) o
with_none taken o c = subst (λ t. Accounted t o) (sym (append-nil taken)) c

none_held :
    (spool : Option (List EventDescriptor)) (quits : Bool)
    → elim spool [ none ↦ not quits | some events ↦ false ] ≡ true
    → spool ≡ none
none_held none quits t = refl
none_held (some events) quits t = cc

step-Accounted :
    (taken : List EventDescriptor) (st : Step) (d : Delivery)
    → IsFair st d
    → Accounts taken d
    → Accounted (taken ++ taken_in st) (step st d)
unfolding step taken_in force_failure takes_spools
step-Accounted taken (adds e) d fair c =
    with_none taken (step (adds e) d) (elim (Option-cases (lookup e d.sink.endpoints)) [
      | inl l ↦ (
        record d { sink = add_endpoint e d.sink },
        rw (l, step) refl,
        set_sink taken (add_endpoint e d.sink) d (add_endpoint-IsListed e d.sink l c.listed) c,
      )
      | inr (ep, l) ↦ (d, rw (l, step) refl, c)
    ])
step-Accounted taken (closes e) d fair c =
    let s = on shutdown_endpoint e d.sink in
    let h =
      on-IsListed shutdown_endpoint e d.sink
        (λ ep l. shutdown_endpoint-IsListed e ep d.sink l c.listed) c.listed in
    with_none taken (step (closes e) d) (record d { sink = s }, refl, set_sink taken s d h c)
step-Accounted taken (times_out e) d fair c =
    let s = on move_failed e d.sink in
    let h =
      on-IsListed move_failed e d.sink
        (λ ep l. move_failed-IsListed e ep ep.status d.sink l refl c.listed) c.listed in
    with_none taken (step (times_out e) d) (record d { sink = s }, refl, set_sink taken s d h c)
step-Accounted taken (takes a events) d (ok, reads) c =
    let (d', t, k, o) =
      take_spool-Returns taken a events d ok c (none_held d.next_spool d.shutting_down reads) in
    (d', if-true (takes_spools d) _ _ reads ∙ t, k)
step-Accounted taken (acknowledges a e id sequence) d (ok, known) c =
    with_none taken (step (acknowledges a e id sequence) d)
      (acknowledge-Accounted taken a e id sequence d known ok c)
step-Accounted taken (fails a first e) d ok c =
    with_none taken (step (fails a first e) d) (failed-Accounted taken a first e d ok c)
step-Accounted taken (starts a e) d ok c =
    with_none taken (step (starts a e) d) (started-Accounted taken a e d ok c)
step-Accounted taken (resumes a e) d ok c =
    with_none taken (step (resumes a e) d) (resumed-Accounted taken a e d ok c)
step-Accounted taken (finishes a first configured again e) d ok c =
    with_none taken (step (finishes a first configured again e) d)
      (finished-Accounted taken a first configured again e d ok c)
step-Accounted taken (shuts_down endpoints) d fair c = cc

run-Accounted :
    (taken : List EventDescriptor) (steps : List Step) (d : Delivery)
    → AllFair steps d
    → Accounts taken d
    → Accounted (taken ++ taken_by steps) (run steps d)
unfolding run taken_by
run-Accounted taken [] d fair c = with_none taken (some d) (d, refl, c)
run-Accounted taken (st ∷ steps) d (fair, later) c =
    let (next, e, k) = step-Accounted taken st d fair c in
    let (last, t, m) = run-Accounted (taken ++ taken_in st) steps next (later next e) k in
    (
      last,
      rw (e, run) t,
      subst (λ es. Accounts es last)
          (append_assoc taken (taken_in st) (taken_by steps)
            ∙ ap (◌++◌ taken) (sym (taken_by-cons st steps)))
          m,
    )

-- From a new publisher on, however endpoints are added (by `AddEndpoint`), started, fail, time out, resume, are closed and
-- finish, and whatever they acknowledge, if the transports take what is written to them, a spool is
-- taken only when the channel is read, every payload that an endpoint has and acknowledges is one of the
-- publisher's, and there is no shutdown: no step panics; the events that went to the registrar,
-- followed by those of the payloads in flight and those of the spool that is held, are the events of
-- the spools that were taken, in order and each once; and the lists of the sink are as the statuses say.
pub run-new_delivery :
    (max_pending_payloads : ℕ) (steps : List Step)
    → AllFair steps (new_delivery max_pending_payloads)
    → (last : Delivery) × (run steps (new_delivery max_pending_payloads) ≡ some last)
      × ((flat last.publisher.acks ++ in_flight last.publisher.payload_list) ++ held last.next_spool
          ≡ taken_by steps)
      × IsListed last.sink
run-new_delivery max_pending_payloads steps fair =
    let (last, e, c) = run-Accounted [] steps (new_delivery max_pending_payloads) fair record {
      listed = unfold new_delivery in new_sink-IsListed;
      given = [];
      in_order = record {
        holds = record {
          valid = unfold new_delivery new_publisher in tt;
          count = unfold new_delivery new_publisher in refl;
          events = unfold new_delivery new_publisher flat in_flight in refl;
        };
        released = unfold new_delivery new_publisher in tt;
      };
      all = unfold new_delivery in refl;
      going = unfold new_delivery in refl;
    } in
    (last, e, ap (λ es. es ++ held last.next_spool) c.in_order.holds.events ∙ c.all, c.listed)
