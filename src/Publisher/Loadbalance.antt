-- ===== src/Publisher/Loadbalance.antt =====
-- The load balancing of lc-lib/publisher/method_loadbalance.go on the ordered list of the sink,
-- with the additions and moves of lc-lib/endpoint/sink_list.go. An endpoint is the number of its
-- server's element in the list.
use log_courier.Common.{
  ℕ, ◌≡◌, refl, ap, ◌∙◌, false, Bool-cases, inl, inr, List, [], ◌∷◌, Option, none, some, arith,
  ◌==◌, if◌then◌else◌, count, ==_lem, if-true, not, ◌&&◌,
}
use log_courier.InternalList.{
  Ring, root, zero_list, lazy_init, insert, unlink, push_front, move_after,
}
use log_courier.InternalList.Rings.{IsRing, insert-root}
use log_courier.InternalList.Lists.{lazy_init-IsRing}

-- The ordered list, and the endpoints of the sink.
pub record Ordered : Type 0 where
  pub ordered_list : Ring
  pub endpoints : List ℕ

abbrev with_list : List ℕ → Option Ring → Option Ordered
with_list endpoints none = none
with_list endpoints (some r) = some (record { ordered_list = r; endpoints = endpoints })

-- `MoveEndpointAfter`.
unfoldable pub move_endpoint_after : (server : ℕ) (after : Option ℕ) → Ordered → Option Ordered
unfolding push_front move_after
move_endpoint_after server none s = with_list s.endpoints (push_front server s.ordered_list)
move_endpoint_after server (some after) s =
    with_list s.endpoints (move_after server after s.ordered_list)

-- `AddEndpointAfter`.
unfoldable pub add_endpoint_after : (server : ℕ) (after : Option ℕ) → Ordered → Option Ordered
unfolding push_front move_after
add_endpoint_after server none s =
    with_list (server ∷ s.endpoints) (push_front server s.ordered_list)
add_endpoint_after server (some after) s =
    with_list (server ∷ s.endpoints) (move_after server after s.ordered_list)

-- The loop of `reloadConfig`, but for the configuration that each endpoint gets.
unfoldable pub reload_from : (servers : List ℕ) (last : Option ℕ) → Ordered → Option Ordered
unfolding move_endpoint_after add_endpoint_after count
reload_from [] last s = some s
reload_from (server ∷ servers) last s =
    elim (if count server s.endpoints == 0
      then add_endpoint_after server last s
      else move_endpoint_after server last s) [
        | none ↦ none
        | some s' ↦ reload_from servers (some server) s'
      ]

unfoldable pub reload_config : List ℕ → Ordered → Option Ordered
unfolding reload_from
reload_config servers s = reload_from servers none s

unfoldable pub new_sink : Ordered
unfolding zero_list
new_sink = record { ordered_list = zero_list; endpoints = [] }

-- Servers that are new, each once.
unfoldable pub AllNew : List ℕ → List ℕ → Type 0
unfolding count
AllNew [] known = Unit
AllNew (server ∷ servers) known =
    (count server (root ∷ known) ≡ 0) × AllNew servers (server ∷ known)

-- What the sink has when each server was added.
abbrev pub all_added : (servers known : List ℕ) → List ℕ
all_added [] known = known
all_added (server ∷ servers) known = all_added servers (server ∷ known)

-- A new endpoint behind another is not in the list.
add-unlisted :
    (server after : ℕ) (s : Ordered)
    → s.ordered_list.listed server ≡ false
    → add_endpoint_after server (some after) s
      ≡ some (record { ordered_list = s.ordered_list; endpoints = server ∷ s.endpoints })
unfolding add_endpoint_after move_after
add-unlisted server after s out =
    ap
      (λ b. with_list (server ∷ s.endpoints) (
        if b && not (server == after) && s.ordered_list.listed after
        then elim (unlink server (s.ordered_list.prev server) (s.ordered_list.next server)
            s.ordered_list) [ none ↦ none | some r' ↦ insert server after r' ]
        else some s.ordered_list))
      out

other :
    (server first : ℕ) (known : List ℕ)
    → count server known ≡ 0
    → (count first known == 0) ≡ false
    → (first == server) ≡ false
other server first known k c = elim (Bool-cases (first == server)) [
  | inl e ↦ absurd (ground (arith, k, c, ap (λ x. count x known) (==_lem first server e)))
  | inr n ↦ n
]

-- The rounds behind the first.
rest-unlisted :
    (servers : List ℕ) (after first : ℕ) (s : Ordered)
    → AllNew servers s.endpoints
    → (count first s.endpoints == 0) ≡ false
    → IsRing s.ordered_list (first ∷ [])
    → reload_from servers (some after) s
      ≡ some (record { ordered_list = s.ordered_list; endpoints = all_added servers s.endpoints })
unfolding reload_from AllNew count
rest-unlisted [] after first s a c h = refl
rest-unlisted (server ∷ servers) after first s (k, later) c h =
    let n = other server first s.endpoints (ground (arith, k)) c in
    let out : s.ordered_list.listed server ≡ false = ground (arith, n, h.listed server) in
    let added : Ordered = record {
      ordered_list = s.ordered_list;
      endpoints = server ∷ s.endpoints;
    } in
    let now : (if count server s.endpoints == 0
          then add_endpoint_after server (some after) s
          else move_endpoint_after server (some after) s)
        ≡ some added =
      if-true (count server s.endpoints == 0) _ _ (ground (arith, k))
      ∙ add-unlisted server after s out in
    ap (λ o. elim o [ none ↦ none | some s' ↦ reload_from servers (some server) s' ]) now
    ∙ rest-unlisted servers server first added later (ground (arith, c, n)) h

-- The first load of the method puts only the first of the servers into the ordered list, although
-- it adds an endpoint for each: the other endpoints are not in the list that they are moved in.
pub reload_config-unlisted :
    (first : ℕ) (servers : List ℕ)
    → AllNew (first ∷ servers) []
    → (s : Ordered) × (reload_config (first ∷ servers) new_sink ≡ some s)
      × IsRing s.ordered_list (first ∷ [])
      × (s.endpoints ≡ all_added servers (first ∷ []))
unfolding reload_config new_sink AllNew count
reload_config-unlisted first servers (k, later) =
    let (r, e, h) =
      insert-root first [] (lazy_init zero_list) k
        (lazy_init-IsRing zero_list [] (inl (refl, refl))) in
    let s : Ordered = record { ordered_list = r; endpoints = first ∷ [] } in
    (
      record { ordered_list = r; endpoints = all_added servers (first ∷ []) },
      ap
            (λ o. elim (with_list (first ∷ []) o) [
              | none ↦ none
              | some s' ↦ reload_from servers (some first) s'
            ])
            e
          ∙ rest-unlisted servers first first s later (ground arith) h,
      h,
      refl,
    )
