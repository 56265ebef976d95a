-- ===== src/AddressPool/Lookup.antt =====
-- A look-up of lc-lib/addresspool/addresspool.go that succeeds finds an address.
use log_courier.Common.{
  ℕ, ◌≡◌, refl, sym, subst, inl, inr, Bool, false, Bool-cases, Option-cases, List, [], ◌∷◌, Option,
  none, some, ◌==◌, if◌then◌else◌,
}
use log_courier.AddressPool.{
  Name, TcpAddr, Srv, Net, Pool, PoolError, Result, ok, error, add_addresses, populate_lookup,
  process_srv, populate_srvs, populate_hostport, populate_srv_server, after_srv, populate_from,
  populate_addresses,
}

abbrev pub IsSlice : Option (List TcpAddr) → Type 0
IsSlice none = ⊥
IsSlice (some addresses) = Unit {0}

abbrev pub IsNonEmpty : Option (List TcpAddr) → Type 0
IsNonEmpty none = ⊥
IsNonEmpty (some []) = ⊥
IsNonEmpty (some (a ∷ rest)) = Unit {0}

-- Between two calls: nil, or an address to give.
abbrev pub IsValid : Option (List TcpAddr) → Type 0
IsValid none = Unit {0}
IsValid (some []) = ⊥
IsValid (some (a ∷ rest)) = Unit {0}

abbrev pub Found : {A : Type 0} → Pool → Result A → Type 0
Found p (ok x) = IsNonEmpty p.addresses
Found p (error e) = Unit {0}

abbrev pub Filled : Pool → Option PoolError → Type 0
Filled p none = IsNonEmpty p.addresses
Filled p (some e) = Unit {0}

add_addresses-IsNonEmpty :
    (addresses : Option (List TcpAddr)) (a : TcpAddr) (new : List TcpAddr) (p : Pool)
    → p.addresses ≡ addresses
    → IsSlice addresses
    → IsNonEmpty (add_addresses (a ∷ new) p).addresses
unfolding add_addresses
add_addresses-IsNonEmpty none a new p e h = elim h [ ]
add_addresses-IsNonEmpty (some []) a new p e h = rw (e, add_addresses) tt
add_addresses-IsNonEmpty (some (b ∷ old)) a new p e h = rw (e, add_addresses) tt

lookup_ip-Found :
    (ips : Option (List ℕ)) (net : Net) (host : Name) (port : ℕ) (p : Pool)
    → net.parse_ip host ≡ none
    → net.lookup_ip host ≡ ips
    → IsSlice p.addresses
    → Found (populate_lookup net host port p).0 (populate_lookup net host port p).1
unfolding populate_lookup
lookup_ip-Found none net host port p e f h = rw (e, f, populate_lookup) tt
lookup_ip-Found (some []) net host port p e f h = rw (e, f, populate_lookup) tt
lookup_ip-Found (some (ip ∷ ips)) net host port p e f h =
    rw (e, f, populate_lookup) (add_addresses-IsNonEmpty p.addresses _ _ p refl h)

parse_ip-Found :
    (ip : Option ℕ) (net : Net) (host : Name) (port : ℕ) (p : Pool)
    → net.parse_ip host ≡ ip
    → IsSlice p.addresses
    → Found (populate_lookup net host port p).0 (populate_lookup net host port p).1
unfolding populate_lookup
parse_ip-Found none net host port p e h = lookup_ip-Found _ net host port p e refl h
parse_ip-Found (some ip) net host port p e h =
    rw (e, populate_lookup) (add_addresses-IsNonEmpty p.addresses _ _ p refl h)

NonEmpty-Slice : (addresses : Option (List TcpAddr)) → IsNonEmpty addresses → IsSlice addresses
NonEmpty-Slice none h = h
NonEmpty-Slice (some addresses) h = tt

srv-Filled :
    (r : Result Bool) (net : Net) (srv : Srv) (srvs : List Srv) (p : Pool)
    → ((p' : Pool)
        → IsNonEmpty p'.addresses
        → Filled (populate_srvs net srvs p').0 (populate_srvs net srvs p').1)
    → (populate_lookup net srv.target srv.port p).1 ≡ r
    → Found
        (populate_lookup net srv.target srv.port p).0
        (populate_lookup net srv.target srv.port p).1
    → Filled (populate_srvs net (srv ∷ srvs) p).0 (populate_srvs net (srv ∷ srvs) p).1
unfolding populate_srvs
srv-Filled (error e) net srv srvs p more q h = rw (q, populate_srvs) tt
srv-Filled (ok b) net srv srvs p more q h =
    let p' = (populate_lookup net srv.target srv.port p).0 in
    rw (q, populate_srvs) (more p' (subst (Found p') q h))

more_srvs-Filled :
    (net : Net) (srvs : List Srv) (p : Pool)
    → IsNonEmpty p.addresses
    → Filled (populate_srvs net srvs p).0 (populate_srvs net srvs p).1
more_srvs-Filled net [] p h = unfold populate_srvs in h
more_srvs-Filled net (srv ∷ srvs) p h =
    srv-Filled _ net srv srvs p (more_srvs-Filled net srvs) refl
      (parse_ip-Found _ net srv.target srv.port p refl (NonEmpty-Slice p.addresses h))

srvs-Filled :
    (found : Option (List Srv)) (net : Net) (server : Name) (p : Pool)
    → net.lookup_srv
        (if p.rfc2782 then p.rfc2782_service else [])
        (if p.rfc2782 then b't' ∷ b'c' ∷ b'p' ∷ [] else [])
        server
      ≡ found
    → IsSlice p.addresses
    → Filled (populate_srv_server net server p).0 (populate_srv_server net server p).1
unfolding populate_srv_server process_srv after_srv
srvs-Filled none net server p e h = rw (e, process_srv) (unfold after_srv in tt)
srvs-Filled (some []) net server p e h = rw (e, process_srv) (unfold after_srv in tt)
srvs-Filled (some (srv ∷ srvs)) net server p e h =
    let p' = record p { host = server; host_is_ip = false } in
    let q : process_srv net server p ≡ (p', ok (srv ∷ srvs)) = rw (e, process_srv) refl in
    subst (λ r. Filled (after_srv net r).0 (after_srv net r).1) (sym q)
      (unfold after_srv in
        srv-Filled _ net srv srvs p' (more_srvs-Filled net srvs) refl
          (parse_ip-Found _ net srv.target srv.port p' refl h))

host-Filled :
    (r : Result Bool) (net : Net) (p : Pool) (host port_str : Name) (port : ℕ)
    → net.split_host_port p.server ≡ some (host, port_str)
    → net.parse_port port_str ≡ some port
    → (populate_lookup net host port (record p { host = host })).1 ≡ r
    → IsSlice p.addresses
    → Filled (populate_hostport net p).0 (populate_hostport net p).1
unfolding populate_hostport
host-Filled (error x) net p host port_str port e f q h =
    rw (e, populate_hostport) (rw (f, populate_hostport) (rw (q, populate_hostport) tt))
host-Filled (ok b) net p host port_str port e f q h =
    let p' = record p { host = host } in
    rw (e, populate_hostport)
      (rw (f, populate_hostport)
        (rw (q, populate_hostport)
          (subst (Found (populate_lookup net host port p').0) q
            (parse_ip-Found _ net host port p' refl h))))

hostport-Filled :
    (net : Net) (p : Pool)
    → IsSlice p.addresses
    → Filled (populate_hostport net p).0 (populate_hostport net p).1
unfolding populate_hostport
hostport-Filled net p h = elim (Option-cases (net.split_host_port p.server)) [
  | inl e ↦ rw (e, populate_hostport) tt
  | inr ((host, port_str), e) ↦ elim (Option-cases (net.parse_port port_str)) [
    | inl f ↦ rw (e, populate_hostport) (rw (f, populate_hostport) tt)
    | inr (port, f) ↦ host-Filled _ net p host port_str port e f refl h
  ]
]

populate_from-Filled :
    (server : Name) (net : Net) (p : Pool)
    → IsSlice p.addresses
    → Filled (populate_from server net p).0 (populate_from server net p).1
unfolding populate_from
populate_from-Filled [] net p h = hostport-Filled net p h
populate_from-Filled (c ∷ server) net p h = elim (Bool-cases (c == b'@')) [
  | inl at_sign ↦ rw at_sign (srvs-Filled _ net server p refl h)
  | inr plain ↦ rw plain (hostport-Filled net p h)
]

pub populate_addresses-Filled :
    (net : Net) (p : Pool)
    → IsSlice p.addresses
    → Filled (populate_addresses net p).0 (populate_addresses net p).1
unfolding populate_addresses
populate_addresses-Filled net p h = populate_from-Filled p.server net p h
