-- ===== src/AddressPool.antt =====
-- lc-lib/addresspool/addresspool.go: the addresses of a server, one after the other. The system's
-- lookups are a parameter of each call, since their answers change with time.
pub mod Lookup
pub mod Rotation
mod Tests
use log_courier.Common.{
  ℕ, Bool, true, false, List, [], ◌∷◌, ◌++◌, Option, none, some, map, ◌==◌, if◌then◌else◌,
}

-- Names are lists of bytes, and an IP address is known by a number.
abbrev pub Name : Type 0
Name = List ℕ

pub record TcpAddr : Type 0 where
  pub ip : ℕ
  pub port : ℕ

pub record Srv : Type 0 where
  pub target : Name
  pub port : ℕ

-- `SplitHostPort`, `ParseUint` (to 16 bits) and `ParseIP`, and the answers of `LookupIP` and
-- `LookupSRV`; `none` is an error.
pub record Net : Type 0 where
  pub split_host_port : Name → Option (Name × Name)
  pub parse_port : Name → Option ℕ
  pub parse_ip : Name → Option ℕ
  pub lookup_ip : Name → Option (List ℕ)
  pub lookup_srv : (service protocol name : Name) → Option (List Srv)

-- The slice `addresses` may be nil, which is not the same as empty. `desc` is what the text says:
-- the address, and the host unless that is an IP address itself.
pub record Pool : Type 0 where
  pub server : Name
  pub rfc2782 : Bool
  pub rfc2782_service : Name
  pub host_is_ip : Bool
  pub host : Name
  pub desc : Option (TcpAddr × Option Name)
  pub addresses : Option (List TcpAddr)

pub data PoolError : Type 0 where
  srv_failed srv_none bad_hostport bad_port dns_failed dns_none : PoolError

pub data Result {ℓ} (A : Type ℓ) : Type ℓ where
  ok : A → Result A
  error : PoolError → Result A

unfoldable pub new_pool : Name → Pool
new_pool server = record {
  server = server;
  rfc2782 = false;
  rfc2782_service = [];
  host_is_ip = false;
  host = [];
  desc = none;
  addresses = none;
}

unfoldable pub set_rfc2782 : Bool → Name → Pool → Pool
set_rfc2782 enabled service p = record p { rfc2782 = enabled; rfc2782_service = service }

unfoldable pub is_last : Pool → Bool
is_last p = elim p.addresses [ none ↦ true | some addresses ↦ false ]

-- `append`, which makes a slice of nil.
unfoldable pub add_addresses : List TcpAddr → Pool → Pool
add_addresses new p = record p {
  addresses = elim p.addresses [ none ↦ some new | some addresses ↦ some (addresses ++ new) ];
}

-- `populateLookup`: whether the host is an IP address.
unfoldable pub populate_lookup : Net → Name → ℕ → Pool → Pool × Result Bool
unfolding add_addresses
populate_lookup net host port p = elim (net.parse_ip host) [
  | some ip ↦ (add_addresses (record { ip = ip; port = port } ∷ []) p, ok true)
  | none ↦ elim (net.lookup_ip host) [
    | none ↦ (p, error dns_failed)
    | some [] ↦ (p, error dns_none)
    | some (ip ∷ ips) ↦
        (add_addresses (map (λ ip. record { ip = ip; port = port }) (ip ∷ ips)) p, ok false)
  ]
]

-- `processSrv`.
unfoldable pub process_srv : Net → Name → Pool → Pool × Result (List Srv)
process_srv net server p =
    let p' = record p { host = server; host_is_ip = false } in
    let protocol = if p.rfc2782 then b't' ∷ b'c' ∷ b'p' ∷ [] else [] in
    elim (net.lookup_srv (if p.rfc2782 then p.rfc2782_service else []) protocol server) [
      | none ↦ (p', error srv_failed)
      | some [] ↦ (p', error srv_none)
      | some (srv ∷ srvs) ↦ (p', ok (srv ∷ srvs))
    ]

-- The loop over the SRV records.
unfoldable pub populate_srvs : Net → List Srv → Pool → Pool × Option PoolError
unfolding populate_lookup
populate_srvs net [] p = (p, none)
populate_srvs net (srv ∷ srvs) p =
    let (p', r) = populate_lookup net srv.target srv.port p in
    elim r [ error e ↦ (p', some e) | ok _ ↦ populate_srvs net srvs p' ]

-- A declaration host:port. An error of `SplitHostPort` comes with an empty host.
unfoldable pub populate_hostport : Net → Pool → Pool × Option PoolError
unfolding populate_lookup
populate_hostport net p = elim (net.split_host_port p.server) [
  | none ↦ (record p { host = [] }, some bad_hostport)
  | some (host, port_str) ↦ elim (net.parse_port port_str) [
    | none ↦ (record p { host = host }, some bad_port)
    | some port ↦
        let (p', r) = populate_lookup net host port (record p { host = host }) in
        elim r [
          | error e ↦ (record p' { host_is_ip = false }, some e)
          | ok b ↦ (record p' { host_is_ip = b }, none)
        ]
  ]
]

unfoldable pub after_srv : Net → Pool × Result (List Srv) → Pool × Option PoolError
unfolding populate_srvs
after_srv net (p, error e) = (p, some e)
after_srv net (p, ok srvs) = populate_srvs net srvs p

-- A declaration that stands for SRV records.
unfoldable pub populate_srv_server : Net → Name → Pool → Pool × Option PoolError
unfolding process_srv after_srv
populate_srv_server net server p = after_srv net (process_srv net server p)

-- `populateAddresses`, by the first byte of the server.
unfoldable pub populate_from : Name → Net → Pool → Pool × Option PoolError
unfolding populate_hostport populate_srv_server
populate_from [] net p = populate_hostport net p
populate_from (c ∷ server) net p =
    if c == b'@' then populate_srv_server net server p else populate_hostport net p

unfoldable pub populate_addresses : Net → Pool → Pool × Option PoolError
unfolding populate_from
populate_addresses net p = populate_from p.server net p

-- What `Next` returns; `panic` is that of `p.addresses[0]`.
pub data NextResult : Type 0 where
  address : Pool → TcpAddr → NextResult
  failed : Pool → PoolError → NextResult
  panic : NextResult

unfoldable pub set_desc : TcpAddr → Pool → Pool
set_desc a p = record p { desc = some (a, if p.host_is_ip then none else some p.host) }

unfoldable pub take_next : Option (List TcpAddr) → Pool → NextResult
unfolding set_desc
take_next none p = panic
take_next (some []) p = panic
take_next (some (a ∷ [])) p = address (set_desc a (record p { addresses = none })) a
take_next (some (a ∷ b ∷ rest)) p =
    address (set_desc a (record p { addresses = some (b ∷ rest) })) a

-- `Next` after it has looked addresses up.
unfoldable pub after_lookup : Pool × Option PoolError → NextResult
unfolding take_next
after_lookup (p, some e) = failed (record p { addresses = none }) e
after_lookup (p, none) = take_next p.addresses p

unfoldable pub next_from : Option (List TcpAddr) → Net → Pool → NextResult
unfolding populate_addresses after_lookup take_next
next_from none net p = after_lookup (populate_addresses net (record p { addresses = some [] }))
next_from (some addresses) net p = take_next (some addresses) p

unfoldable pub next : Net → Pool → NextResult
unfolding next_from
next net p = next_from p.addresses net p
