-- ===== src/AddressPool/Tests.antt =====
-- Runs of lc-lib/addresspool/addresspool.go: a name of one byte has that byte as its addresses.
use log_courier.Common.{ℕ, suc, false, List, [], ◌∷◌, Option, none, some}
use log_courier.AddressPool.{Name, Srv, Net, Pool, new_pool, next}
use log_courier.AddressPool.Lookup.{IsValid}
use log_courier.AddressPool.Rotation.{Returns, next-Returns}

split : Name → Option (Name × Name)
split [] = none
split (c ∷ rest) = some (c ∷ [], rest)

two_ips : Name → Option (List ℕ)
two_ips [] = none
two_ips (c ∷ rest) = some (c ∷ suc c ∷ [])

two_srvs : Name → Option (List Srv)
two_srvs [] = some []
two_srvs name = some (record { target = 7 ∷ []; port = 1 } ∷ record { target = []; port = 2 } ∷ [])

abbrev net : Net
net = record {
  split_host_port = split;
  parse_port = λ text. some 80;
  parse_ip = λ name. none;
  lookup_ip = two_ips;
  lookup_srv = λ service protocol name. two_srvs name;
}

new_pool-IsValid : IsValid (new_pool (104 ∷ 58 ∷ [])).addresses
unfolding new_pool
new_pool-IsValid = tt

next-Returns_example : Returns (next net (new_pool (104 ∷ 58 ∷ [])))
next-Returns_example = next-Returns net (new_pool (104 ∷ 58 ∷ [])) new_pool-IsValid

abbrev pool : Pool
pool = record {
  server = 104 ∷ 58 ∷ [];
  rfc2782 = false;
  rfc2782_service = [];
  host_is_ip = false;
  host = 104 ∷ [];
  desc = none;
  addresses = some (record { ip = 104; port = 80 } ∷ record { ip = 105; port = 80 } ∷ []);
}
