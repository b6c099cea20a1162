-- ===== src/Samples.antt =====
-- Data for the tests of every part: addresses that are numbers, 0 for the unspecified one, a
-- database of two gateways and a mobile node, and an anchor that holds a binding.
use odi_mm.Base.{◌++◌, ℕ, refl, true, [], ◌∷◌, some, replicate, nat_beq, nat_eq}
use odi_mm.Types.{Prefix, ProxyBindingInfo, AddressOps}
use odi_mm.NodeDb.{NodeDb, RouterNode, MobileNode}
use odi_mm.Bcache.{BcacheEntry, bind_registered, expires_in}
use odi_mm.Tunnels.{Tunnels}
use odi_mm.Routes
use odi_mm.Routes.{RouteTable, Answer, success}
use odi_mm.Lma.State.{Kernel, Lma}

instance abbrev pub number_addresses : AddressOps ℕ
number_addresses = record {
  equal = nat_eq;
  any = 0;
  is_unspecified = λ a. nat_beq a 0;
  is_unspecified-any = refl;
  to_bytes = λ a. a ∷ [];
  with_scope = λ a scope. a;
}

-- Addresses that are numbers, in sixteen bytes.
abbrev pub wide_addresses : AddressOps ℕ
wide_addresses = record {
  equal = nat_eq;
  any = 0;
  is_unspecified = λ a. nat_beq a 0;
  is_unspecified-any = refl;
  to_bytes = λ a. replicate 15 0 ++ a ∷ [];
  with_scope = λ a scope. a;
}

abbrev pub home : Prefix
home = record { bytes = 0xfd ∷ replicate 15 0; length = 64 }

abbrev pub other_home : Prefix
other_home = record { bytes = 0xfc ∷ replicate 15 0; length = 64 }

-- A registration of node 97 from gateway 1.
abbrev pub update : ProxyBindingInfo ℕ
update = record {
  id = 97 ∷ [];
  address = 1;
  lifetime = 60;
  sequence = 6;
  handoff = 4;
  status = 0;
  prefix_list = [];
  link_type = 4;
}

abbrev pub first_router : RouterNode ℕ
first_router = record { id = 49 ∷ []; address = 1; device_id = 3 }

abbrev pub second_router : RouterNode ℕ
second_router = record { id = 50 ∷ []; address = 2; device_id = 3 }

abbrev pub node : MobileNode ℕ
node = record {
  id = 97 ∷ [];
  prefix_list = home ∷ [];
  link_addresses = (1 ∷ 2 ∷ []) ∷ [];
  lma_id = 48 ∷ [];
  home_address = 0;
}

abbrev pub database : NodeDb ℕ
database = record {
  routers_by_id = (49 ∷ [], first_router) ∷ (50 ∷ [], second_router) ∷ [];
  routers_by_key = (1, first_router) ∷ (2, second_router) ∷ [];
  mobiles_by_id = (97 ∷ [], node) ∷ [];
  mobiles_by_key = (1 ∷ 2 ∷ [], node) ∷ [];
}

abbrev pub no_tunnels : Tunnels ℕ
no_tunnels = record { local = 9; global_address = true; tunnels = []; gc = [] }

-- One tunnel to gateway 1, with one user.
abbrev pub one_tunnel : Tunnels ℕ
one_tunnel = record no_tunnels { tunnels = (1, record { device = 7; refcount = 1 }) ∷ [] }

abbrev pub no_routes : RouteTable ℕ
no_routes = record { by_src = []; by_dst = []; rtnl_seq = 0; requests = [] }

abbrev pub one_route : RouteTable ℕ
one_route = record no_routes { by_dst = (home, record { device = 7; gateway = 0 }) ∷ [] }

abbrev pub binding : BcacheEntry ℕ
binding = record {
  id = 97 ∷ [];
  prefix_list = home ∷ [];
  care_of_address = 1;
  lifetime = 60;
  sequence = 5;
  link_type = 4;
  bind_status = bind_registered;
  timer = some (expires_in 60);
}

abbrev pub idle : Lma ℕ
idle = record {
  bcache = [];
  node_db = database;
  identifier = 48 ∷ [];
  tunnels = no_tunnels;
  routes = no_routes;
  concurrency = 1;
  receivers = 1;
  sent = [];
}

abbrev pub holding : Lma ℕ
holding = record idle { bcache = (97 ∷ [], binding) ∷ []; tunnels = one_tunnel; routes = one_route }

abbrev pub agreeable : Kernel ℕ
agreeable = record { open_tunnel = λ local remote global. some 8; checked_send = λ r. success }

abbrev pub agrees : Routes.Request → Answer
agrees r = success
