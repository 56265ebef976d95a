-- ===== src/InternalList/Tests.antt =====
-- Runs of lc-lib/internallist.
use log_courier.Common.{ℕ, ◌≡◌, refl, ◌⊎◌, List, [], ◌∷◌, Option, none, some, count}
use log_courier.InternalList.{
  Ring, zero_list, set_next, set_prev, set_listed, init, lazy_init, link, insert, unlink, remove,
  push_front, push_back, insert_after, move_after,
}
use log_courier.InternalList.Rings.{IsRing}
use log_courier.InternalList.Operations.{
  put_after, Operation, pushes_front, pushes_back, removes, inserts_after, moves_after, step,
  list_step, IsAllowed, run, list_run, AllAllowed,
}
use log_courier.InternalList.Lists.{run-list_run}
use log_courier.Endpoint.{remove as remove_from}

abbrev operations : List Operation
operations =
    pushes_back 1
    ∷ pushes_front 2
    ∷ inserts_after 3 2
    ∷ moves_after 2 1
    ∷ removes 3
    ∷ removes 9
    ∷ []

abbrev links : Option Ring → List (Option ℕ)
links none = []
links (some r) = r.next 0 ∷ r.next 1 ∷ r.next 2 ∷ r.prev 0 ∷ r.prev 1 ∷ r.prev 2 ∷ []

run-operations :
    links (run operations zero_list) ≡ some 1 ∷ some 2 ∷ some 0 ∷ some 2 ∷ some 0 ∷ some 1 ∷ []
unfolding run step push_front push_back remove insert_after move_after unlink insert link lazy_init
    init set_next set_prev set_listed zero_list
run-operations = refl

-- An element that is in the list already is pushed to the front: it becomes its own successor.
push_front-twice :
    links (run (pushes_front 1 ∷ pushes_front 1 ∷ []) zero_list)
    ≡ some 1 ∷ some 1 ∷ none ∷ some 1 ∷ some 1 ∷ none ∷ []
unfolding run step push_front insert link lazy_init init set_next set_prev set_listed zero_list
push_front-twice = refl

run-list_run_example :
    (r : Ring) × (run operations zero_list ≡ some r)
    × (((r ≡ zero_list) × (list_run operations [] ≡ [])) ⊎ IsRing r (1 ∷ 2 ∷ []))
unfolding AllAllowed IsAllowed list_run list_step put_after remove_from count
run-list_run_example = run-list_run operations (refl, (refl, (refl, (tt, (tt, (tt, tt))))))
