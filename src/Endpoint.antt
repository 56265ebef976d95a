-- ===== src/Endpoint.antt =====
-- lc-lib/endpoint: the status of each endpoint, and the lists of the sink that follow it (sink.go,
-- sink_status.go, sink_list.go, status.go). An endpoint is known by its server, and a server by a
-- number; a list of internallist is the list of its elements. Transports and latencies are
-- not modelled, and the timeouts stand in Timeouts: what a transport reports, and a timeout that
-- fires, are steps.
pub mod Lists
pub mod Steps
pub mod Reload
pub mod Timeouts
mod Tests
use log_courier.Common.{
  ℕ, ◌+◌, Bool, true, false, not, ◌&&◌, List, [], ◌∷◌, ◌++◌, Option, none, some, length, ◌==◌,
  if◌then◌else◌, Assoc, lookup, insert, delete, nat_eq,
}

pub data Status : Type 0 where
  idle active failed closing : Status

pub record Endpoint : Type 0 where
  pub status : Status
  pub num_payloads : ℕ

-- `shut_down` are the transports that were told to shut down.
pub record Sink : Type 0 where
  pub endpoints : Assoc ℕ Endpoint
  pub ready_list : List ℕ
  pub failed_list : List ℕ
  pub ordered_list : List ℕ
  pub shut_down : List ℕ

unfoldable pub new_sink : Sink
new_sink = record {
  endpoints = [];
  ready_list = [];
  failed_list = [];
  ordered_list = [];
  shut_down = [];
}

abbrev pub is_idle : Status → Bool
is_idle idle = true
is_idle _ = false

abbrev pub is_active : Status → Bool
is_active active = true
is_active _ = false

abbrev pub is_failed : Status → Bool
is_failed failed = true
is_failed _ = false

abbrev pub is_closing : Status → Bool
is_closing closing = true
is_closing _ = false

-- `!e.IsIdle() && e.status < endpointStatusFailed`, the statuses being in their order.
abbrev pub is_alive : Status → Bool
is_alive idle = false
is_alive active = true
is_alive failed = false
is_alive closing = false

-- `List.Remove` of lc-lib/internallist/list.go.
unfoldable pub remove : ℕ → List ℕ → List ℕ
remove id [] = []
remove id (other ∷ list) = if other == id then list else other ∷ remove id list

-- What the code does to the lists as an endpoint leaves its status.
unfoldable pub leave : ℕ → Status → Sink → Sink
unfolding remove
leave id active s = record s { ready_list = remove id s.ready_list }
leave id failed s = record s { failed_list = remove id s.failed_list }
leave id _ s = s

unfoldable pub set_status : ℕ → Endpoint → Status → Sink → Sink
set_status id e status s = record s {
  endpoints = insert id (record e { status = status }) s.endpoints;
}

unfoldable pub add_endpoint : ℕ → Sink → Sink
add_endpoint id s = record s {
  endpoints = insert id (record { status = idle; num_payloads = 0 }) s.endpoints;
  ordered_list = s.ordered_list ++ id ∷ [];
}

unfoldable pub mark_active : ℕ → Endpoint → Sink → Sink
unfolding set_status
mark_active id e s =
    if is_idle e.status
    then (let s' = set_status id e active s in record s' { ready_list = s'.ready_list ++ id ∷ [] })
    else s

-- `moveFailed` but for the timeout and the observer's `OnFail`; its shutdown is never reached, as
-- an endpoint that is closing is not alive.
unfoldable pub move_failed : ℕ → Endpoint → Sink → Sink
unfolding set_status leave
move_failed id e s =
    if is_alive e.status
    then (let s' = set_status id e failed (leave id e.status s) in
        record s' { failed_list = id ∷ s'.failed_list })
    else s

-- `recoverFailed`: the timeout that it registers will call `markActive`.
unfoldable pub recover_failed : ℕ → Endpoint → Sink → Sink
unfolding set_status leave
recover_failed id e s = if is_failed e.status then leave id failed (set_status id e idle s) else s

-- `ShutdownEndpoint`, for an endpoint that is there.
unfoldable pub shutdown_endpoint : ℕ → Endpoint → Sink → Sink
unfolding set_status leave
shutdown_endpoint id e s =
    if is_closing e.status
    then s
    else (let s' = set_status id e closing (leave id e.status s) in
        if e.num_payloads == 0 then record s' { shut_down = id ∷ s'.shut_down } else s')

unfoldable pub remove_endpoint : ℕ → Endpoint → Sink → Sink
unfolding leave
remove_endpoint id e s =
    let s' = leave id e.status s in
    record s' { endpoints = delete id s'.endpoints; ordered_list = remove id s'.ordered_list }

-- The started transport of `processStatusChange`.
unfoldable pub started : ℕ → Endpoint → Sink → Sink
unfolding recover_failed mark_active
started id e s = if is_failed e.status then recover_failed id e s else mark_active id e s

-- Payloads that are queued on an endpoint or leave it, but for the shutdown of the transport that
-- `processAck` makes when an endpoint that is closing has none left.
unfoldable pub set_payloads : ℕ → ℕ → Endpoint → Sink → Sink
set_payloads n id e s = record s {
  endpoints = insert id (record e { num_payloads = n }) s.endpoints;
}

-- What happens to an endpoint: it is added by `AddEndpoint`, unless there is one for the server, a transport reports
-- a change, the timeout of a recovery fires, it is to shut down, or its payloads change.
pub data Step : Type 0 where
  adds starts fails finishes resumes shuts_down : ℕ → Step
  has_payloads : ℕ → ℕ → Step

abbrev pub on : (ℕ → Endpoint → Sink → Sink) → ℕ → Sink → Sink
on f id s = elim (lookup id s.endpoints) [ none ↦ s | some e ↦ f id e s ]

unfoldable pub step : Step → Sink → Sink
unfolding started move_failed remove_endpoint mark_active shutdown_endpoint add_endpoint
    set_payloads
step (adds id) s = elim (lookup id s.endpoints) [ none ↦ add_endpoint id s | some e ↦ s ]
step (starts id) s = on started id s
step (fails id) s = on move_failed id s
step (finishes id) s = on remove_endpoint id s
step (resumes id) s = on mark_active id s
step (shuts_down id) s = on shutdown_endpoint id s
step (has_payloads id n) s = on (set_payloads n) id s

unfoldable pub run : List Step → Sink → Sink
unfolding step
run [] s = s
run (st ∷ steps) s = run steps (step st s)
