-- ===== src/Mag/Examples.antt =====
-- The theorems about the mobile access gateway at concrete inputs.
use odi_mm.Base.{
  ℕ, ◌<◌, ◌≡◌, refl, true, [], ◌∷◌, none, some, arith, nat_eq, list_eq, list_beq, find, put,
}
use odi_mm.Run.{done, ◌>>=◌}
use odi_mm.Types.{ProxyBindingInfo, address_eq, prefix_beq}
use odi_mm.Samples.{
  node, wide_addresses, number_addresses, home, update, database, no_tunnels, no_routes, agreeable,
}
use odi_mm.Sequence.{validate_sequence_number}
use odi_mm.NodeDb.{RouterNode, MobileNode}
use odi_mm.Bulist.{
  BulistEntry, bulist_entry, bind_unknown, bind_requested, bind_detach, bind_renewing, bind_ack,
  renews, find_by_id, retries,
}
use odi_mm.Mag.State.{Mag, AttachInfo}
use odi_mm.Tunnels
use odi_mm.Routes
use odi_mm.Lma.Examples.{value_or}
use odi_mm.Lma.{add_all}
use odi_mm.Mag.Delivery.{enlisted, IsNewcomer, attached, requested}
use odi_mm.Mag.{proxy_binding_ack, add_route_entries, add_all_src, ask}
use odi_mm.Mag.Acks.{renewal-timer, bad_sequence-recovers}
use odi_mm.Mag.Retries.{time_out_again, detach_ends}

-- An update for node 97 to the anchor at address 3, and the list entry that sent it.
abbrev pub request : ProxyBindingInfo ℕ
request = record update { address = 3; sequence = 9 }

abbrev pub entry : BulistEntry ℕ
entry = record {
  mn_id = 97 ∷ [];
  mn_link_address = 1 ∷ 2 ∷ [];
  mn_prefix_list = home ∷ [];
  home_address = 0;
  lma_address = 3;
  poa_dev_id = 4;
  poa_address = 5 ∷ [];
  lifetime = 60;
  sequence_number = 9;
  bind_status = bind_requested;
  retry_count = 0;
  mtu = 1460;
  timer = some (retries 1000 request);
  completion = some 1;
}

abbrev pub gateway : Mag ℕ
gateway = record {
  bulist = record { by_id = (97 ∷ [], entry) ∷ []; by_link = (1 ∷ 2 ∷ [], 97 ∷ []) ∷ [] };
  node_db = database;
  identifier = 49 ∷ [];
  link_local_ip = 8;
  tunnels = no_tunnels;
  routes = no_routes;
  concurrency = 1;
  receivers = 1;
  sent = request ∷ [];
  reports = [];
  addrconf = [];
}

abbrev bad_sequence : ProxyBindingInfo ℕ
bad_sequence = record request { sequence = 65535; status = 135 }

bad_sequence-recovers_example :
    (mag' : Mag ℕ) × (again : ProxyBindingInfo ℕ) × (proxy_binding_ack agreeable gateway
        bad_sequence
      ≡ done mag')
    × (mag'.sent ≡ again ∷ request ∷ [])
    × (again.id ≡ 97 ∷ [])
    × (again.address ≡ 3)
    × (validate_sequence_number 65535 again.sequence ≡ true)
unfolding find list_beq
bad_sequence-recovers_example =
    bad_sequence-recovers agreeable gateway bad_sequence entry refl refl refl (omega arith)

-- Node 98, of another anchor, attaches with the link address of node 97.
abbrev other_node : MobileNode ℕ
other_node = record {
  id = 98 ∷ [];
  prefix_list = [];
  link_addresses = [];
  lma_id = 50 ∷ [];
  home_address = 0;
}

abbrev crowded : Mag ℕ
crowded = record gateway {
  node_db = record database { mobiles_by_id = (98 ∷ [], other_node) ∷ database.mobiles_by_id };
}

abbrev attachment : AttachInfo
attachment = record {
  poa_dev_id = 4;
  poa_address = 5 ∷ [];
  mn_id = 98 ∷ [];
  mn_address = 1 ∷ 2 ∷ [];
}

abbrev other_anchor : RouterNode ℕ
other_anchor = record { id = 50 ∷ []; address = 2; device_id = 3 }

abbrev leaving : BulistEntry ℕ
leaving = record entry { bind_status = bind_detach; timer = some (retries 1500 request) }

abbrev farewell : Mag ℕ
farewell = record gateway {
  bulist = record { by_id = (97 ∷ [], leaving) ∷ []; by_link = (1 ∷ 2 ∷ [], 97 ∷ []) ∷ [] };
}

detach_ends_example :
    (find_by_id (time_out_again 4 farewell (97 ∷ [])).bulist (97 ∷ []) ≡ none)
    × ((time_out_again 4 farewell (97 ∷ [])).sent ≡ request ∷ request ∷ request ∷ request ∷ [])
unfolding find list_beq
detach_ends_example = detach_ends farewell request leaving _ refl refl refl refl refl

abbrev bye : ProxyBindingInfo ℕ
bye = record request { lifetime = 0; status = 154 }

abbrev renewed : BulistEntry ℕ
renewed = record entry { bind_status = bind_renewing; completion = none }

abbrev renewing_gateway : Mag ℕ
renewing_gateway = record gateway {
  bulist = record { by_id = (97 ∷ [], renewed) ∷ []; by_link = (1 ∷ 2 ∷ [], 97 ∷ []) ∷ [] };
}

renewal-timer_example :
    (mag' : Mag ℕ) × (be' : BulistEntry ℕ) × (delay : ℕ) × (proxy_binding_ack agreeable
        renewing_gateway request
      ≡ done mag')
    × (find_by_id mag'.bulist (97 ∷ []) ≡ some be')
    × (be'.bind_status ≡ bind_ack)
    × (be'.timer ≡ some (renews delay))
    × (delay < 60)
    × (mag'.reports ≡ [])
unfolding find list_beq
renewal-timer_example =
    renewal-timer agreeable renewing_gateway request renewed refl refl refl refl refl (omega arith)
      refl

-- Node 97 attaches again, and the routes of its entry are added.
abbrev pub routed_gateway : Mag ℕ
routed_gateway =
    value_or gateway
      (add_route_entries agreeable (attached gateway entry (some 2)) (requested entry (some 2)))

pub attached-routes :
    add_route_entries agreeable (attached gateway entry (some 2)) (requested entry (some 2))
    ≡ done routed_gateway
unfolding add_route_entries ask add_all_src add_all Tunnels.get Routes.add_by_src Routes.add_by_dst
    find put list_beq prefix_beq ◌>>=◌
attached-routes = refl

-- The same node attaches to a gateway that has no entry of it, at second 9.
abbrev pub empty_gateway : Mag ℕ
empty_gateway = record gateway {
  bulist = record { by_id = []; by_link = [] };
  node_db = record database {
    routers_by_id =
        (48 ∷ [], record { id = 48 ∷ []; address = 3; device_id = 2 }) ∷ database.routers_by_id;
  };
}

abbrev pub new_entry : BulistEntry ℕ
new_entry = record entry { bind_status = bind_unknown; timer = none; completion = none }

abbrev pub again : AttachInfo
again = record { poa_dev_id = 4; poa_address = 5 ∷ []; mn_id = 97 ∷ []; mn_address = 1 ∷ 2 ∷ [] }

pub new_entry-IsNewcomer : IsNewcomer 9 empty_gateway again new_entry
unfolding find list_beq bulist_entry
new_entry-IsNewcomer = record {
  mobile = node;
  anchor = record { id = 48 ∷ []; address = 3; device_id = 2 };
  absent = refl;
  listed = refl;
  named = refl;
  served = refl;
  free = refl;
  entry = refl;
}

abbrev pub routed_newcomer : Mag ℕ
routed_newcomer = value_or gateway (
    add_route_entries agreeable (attached (enlisted empty_gateway new_entry) new_entry (some 2))
      (requested new_entry (some 2)))

pub newcomer-routes :
    add_route_entries agreeable
      (attached (enlisted empty_gateway new_entry) new_entry (some 2))
      (requested new_entry (some 2))
    ≡ done routed_newcomer
unfolding add_route_entries ask add_all_src add_all Tunnels.get Routes.add_by_src Routes.add_by_dst
    find put list_beq prefix_beq ◌>>=◌
newcomer-routes = refl

-- An entry of a node with a link address and a home address of full width.
abbrev pub homed_entry : BulistEntry ℕ
homed_entry = record entry {
  mn_link_address = 0 ∷ 1 ∷ 2 ∷ 0xab ∷ 0xcd ∷ 0xef ∷ [];
  home_address = 9;
  poa_dev_id = 3;
  poa_address = 2 ∷ 0 ∷ 0 ∷ 0 ∷ 0 ∷ 1 ∷ [];
}

abbrev pub homed_gateway : Mag ℕ
homed_gateway =
    value_or gateway (add_route_entries ⦃ops = wide_addresses⦄ agreeable gateway homed_entry)

pub homed-routes :
    add_route_entries ⦃ops = wide_addresses⦄ agreeable gateway homed_entry ≡ done homed_gateway
unfolding add_route_entries add_all_src add_all Tunnels.get Routes.add_by_src Routes.add_by_dst find
    put list_beq prefix_beq ◌>>=◌
homed-routes = refl
