-- ===== src/Endpoint/Reload.antt =====
-- ReloadConfig of lc-lib/endpoint/sink.go: the endpoints that the new configuration leaves out.
use log_courier.Common.{
  ℕ, ◌≡◌, refl, ap, ◌∙◌, false, Option-cases, inl, inr, List, [], ◌∷◌, Option, none, some, arith,
  ◌==◌, if-Both, if-false, if◌then◌else◌, lookup, nat_eq, lookup-insert, count,
}
use log_courier.Endpoint.{
  closing, Endpoint, Sink, is_closing, leave, set_status, shutdown_endpoint, on,
}
use log_courier.Endpoint.Lists.{leave-endpoints}

-- What the variable `server` holds after the loop over the servers that found nothing.
abbrev pub last_server : List ℕ → Option ℕ
last_server [] = none
last_server (server ∷ []) = some server
last_server (server ∷ other ∷ servers) = last_server (other ∷ servers)

unfoldable pub shutdown_server : Option ℕ → Sink → Sink
unfolding shutdown_endpoint
shutdown_server none s = s
shutdown_server (some server) s = on shutdown_endpoint server s

-- The rounds for the endpoints of the ordered list, which a shutdown leaves as it is.
unfoldable pub reload_loop : (servers ids : List ℕ) → Sink → Sink
unfolding shutdown_server count
reload_loop servers [] s = s
reload_loop servers (id ∷ ids) s =
    reload_loop servers ids
      (if count id servers == 0 then shutdown_server (last_server servers) s else s)

unfoldable pub reload_config : List ℕ → Sink → Sink
unfolding reload_loop
reload_config servers s = reload_loop servers s.ordered_list s

shutdown-lookup :
    (server id : ℕ) (e : Endpoint) (s : Sink)
    → (server == id) ≡ false
    → lookup id (shutdown_endpoint server e s).endpoints ≡ lookup id s.endpoints
unfolding shutdown_endpoint set_status
shutdown-lookup server id e s n =
    let left = leave server e.status s in
    let s' = set_status server e closing left in
    let kept : lookup id s'.endpoints ≡ lookup id s.endpoints =
      lookup-insert server id (record e { status = closing }) left.endpoints
      ∙ if-false (server == id) _ _ n
      ∙ ap (lookup id) (leave-endpoints server e.status s) in
    let Kept = λ (q : Sink). lookup id q.endpoints ≡ lookup id s.endpoints in
    if-Both Kept (is_closing e.status) s _ (λ c. refl)
      (λ c.
        if-Both Kept (e.num_payloads == 0) (record s' { shut_down = server ∷ s'.shut_down }) s'
          (λ p. kept) (λ p. kept))

shutdown-other :
    (server id : ℕ) (s : Sink)
    → (server == id) ≡ false
    → lookup id (on shutdown_endpoint server s).endpoints ≡ lookup id s.endpoints
shutdown-other server id s n = elim (Option-cases (lookup server s.endpoints)) [
  | inl l ↦ rw (l, on) refl
  | inr (e, l) ↦ rw (l, on) (shutdown-lookup server id e s n)
]

count-last_server :
    (servers : List ℕ) (server id : ℕ)
    → last_server servers ≡ some server
    → count id servers ≡ 0
    → (server == id) ≡ false
unfolding count
count-last_server [] server id l c = absurd (ground arith)
count-last_server (x ∷ []) server id l c = ground (arith, c, l)
count-last_server (x ∷ y ∷ servers) server id l c =
    count-last_server (y ∷ servers) server id l (ground (arith, c))

-- A round of the loop.
reload-other :
    (servers : List ℕ) (id : ℕ) (s : Sink) (o : Option ℕ)
    → last_server servers ≡ o
    → count id servers ≡ 0
    → lookup id (shutdown_server o s).endpoints ≡ lookup id s.endpoints
unfolding shutdown_server
reload-other servers id s none l c = refl
reload-other servers id s (some server) l c =
    shutdown-other server id s (count-last_server servers server id l c)

reload_loop-other :
    (servers ids : List ℕ) (id : ℕ) (s : Sink)
    → count id servers ≡ 0
    → lookup id (reload_loop servers ids s).endpoints ≡ lookup id s.endpoints
unfolding reload_loop
reload_loop-other servers [] id s c = refl
reload_loop-other servers (other ∷ ids) id s c =
    reload_loop-other servers ids id _ c
    ∙ if-Both (λ (q : Sink). lookup id q.endpoints ≡ lookup id s.endpoints)
        (count other servers == 0) _ s (λ e. reload-other servers id s (last_server servers) refl c)
        (λ e. refl)

-- The endpoint of a server that the new configuration leaves out stays as it was: it is not shut
-- down, whatever the configuration and the sink are.
pub reload_config-left_out :
    (servers : List ℕ) (id : ℕ) (s : Sink)
    → count id servers ≡ 0
    → lookup id (reload_config servers s).endpoints ≡ lookup id s.endpoints
unfolding reload_config
reload_config-left_out servers id s c = reload_loop-other servers s.ordered_list id s c
