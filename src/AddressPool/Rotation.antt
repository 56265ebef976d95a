-- ===== src/AddressPool/Rotation.antt =====
-- `Next` of lc-lib/addresspool/addresspool.go never panics, and gives each address once before it
-- looks them up again.
use log_courier.Common.{◌≡◌, refl, ap, true, List, [], ◌∷◌, Option, none, some, length, arith}
use log_courier.AddressPool.{
  TcpAddr, Net, Pool, PoolError, NextResult, address, failed, panic, is_last, populate_addresses,
  set_desc, take_next, after_lookup, next_from, next,
}
use log_courier.AddressPool.Lookup.{IsNonEmpty, IsValid, Filled, populate_addresses-Filled}

-- A call that returns leaves a pool between two calls.
abbrev pub Returns : NextResult → Type 0
Returns (address p a) = IsValid p.addresses
Returns (failed p e) = p.addresses ≡ none
Returns panic = ⊥

take_next-Returns :
    (addresses : Option (List TcpAddr)) (p : Pool)
    → IsNonEmpty addresses
    → Returns (take_next addresses p)
unfolding take_next set_desc
take_next-Returns none p h = elim h [ ]
take_next-Returns (some []) p h = elim h [ ]
take_next-Returns (some (a ∷ [])) p h = tt
take_next-Returns (some (a ∷ b ∷ rest)) p h = tt

after_lookup-Returns :
    (p : Pool) (err : Option PoolError) → Filled p err → Returns (after_lookup (p, err))
unfolding after_lookup
after_lookup-Returns p none h = take_next-Returns p.addresses p h
after_lookup-Returns p (some e) h = refl

from-Returns :
    (addresses : Option (List TcpAddr)) (net : Net) (p : Pool)
    → IsValid addresses
    → Returns (next_from addresses net p)
unfolding next_from
from-Returns none net p h =
    let p' = record p { addresses = some [] } in
    after_lookup-Returns (populate_addresses net p').0 (populate_addresses net p').1
      (populate_addresses-Filled net p' tt)
from-Returns (some []) net p h = elim h [ ]
from-Returns (some (a ∷ rest)) net p h = take_next-Returns (some (a ∷ rest)) p tt

-- Whatever the lookups answer, a call of `Next` returns an address or an error and does not panic,
-- and leaves a pool for which that holds again; after an error the next call looks up anew.
pub next-Returns : (net : Net) (p : Pool) → IsValid p.addresses → Returns (next net p)
unfolding next
next-Returns net p h = from-Returns p.addresses net p h

-- The addresses that calls return, with the pool after them; `none` if one returns none.
unfoldable pub nexts : List Net → Pool → Option (Pool × List TcpAddr)
nexts [] p = some (p, [])
nexts (net ∷ nets) p = elim (next net p) [
  | address p' a ↦ elim (nexts nets p') [
    | none ↦ none
    | some (last, found) ↦ some (last, a ∷ found)
  ]
  | failed p' e ↦ none
  | panic ↦ none
]

take_next_last :
    (net : Net) (p : Pool) (a : TcpAddr)
    → p.addresses ≡ some (a ∷ [])
    → next net p ≡ address (set_desc a (record p { addresses = none })) a
unfolding next next_from take_next
take_next_last net p a e = ap (λ x. next_from x net p) e

take_next_more :
    (net : Net) (p : Pool) (a b : TcpAddr) (rest : List TcpAddr)
    → p.addresses ≡ some (a ∷ b ∷ rest)
    → next net p ≡ address (set_desc a (record p { addresses = some (b ∷ rest) })) a
unfolding next next_from take_next
take_next_more net p a b rest e = ap (λ x. next_from x net p) e

-- A pool with addresses gives each of them once and in order, whatever lookups would answer
-- meanwhile, and has then come to its last.
pub nexts-addresses :
    (nets : List Net) (p : Pool) (a : TcpAddr) (rest : List TcpAddr)
    → p.addresses ≡ some (a ∷ rest)
    → length nets ≡ length (a ∷ rest)
    → (last : Pool) × (nexts nets p ≡ some (last, a ∷ rest)) × (is_last last ≡ true)
unfolding nexts is_last
nexts-addresses [] p a rest e l = absurd (omega arith)
nexts-addresses (net ∷ []) p a [] e l = (
  set_desc a (record p { addresses = none }),
  rw (take_next_last net p a e, nexts) refl,
  unfold set_desc in refl,
)
nexts-addresses (net ∷ second ∷ nets) p a [] e l = absurd (omega arith)
nexts-addresses (net ∷ nets) p a (b ∷ rest) e l =
    let (last, q, h) =
      nexts-addresses nets (set_desc a (record p { addresses = some (b ∷ rest) })) b rest
        (unfold set_desc in refl) (omega arith) in
    (last, rw (take_next_more net p a b rest e, nexts) (rw q refl), h)
