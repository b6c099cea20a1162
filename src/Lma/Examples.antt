-- ===== src/Lma/Examples.antt =====
-- The theorems about the local mobility anchor at concrete inputs.
use odi_mm.Base.{
  true, ℕ, ◌≡◌, refl, false, List, [], ◌∷◌, ◌++◌, replicate, some, arith, nat_eq, list_eq, list_beq,
  find, put, erase,
}
use odi_mm.Run.{Run, done, threw, asserted, undefined, ◌>>=◌}
use odi_mm.Types.{ProxyBindingInfo, address_eq, prefix_beq}
use odi_mm.Lma.Routing.{has_route, add_route_entries-has_route, del_route_entries-has_route}
use odi_mm.Samples.{home, number_addresses, update, one_tunnel, binding, idle, holding, agreeable}
use odi_mm.Sequence.{validate_sequence_number}
use odi_mm.Tunnels
use odi_mm.Tunnels.Counts.{count, IsCollectable}
use odi_mm.Routes
use odi_mm.Bcache.{lookup, bcache_entry, insert, removes_in, bind_deregistered}
use odi_mm.Wire.Message.{header_cast}
use odi_mm.Wire.Flags.{get_flag}
use odi_mm.Wire.Receiver.{pbu_parse}
use odi_mm.Lma.State.{Lma, Kernel, Event, receives, expires}
use odi_mm.Lma.{
  proxy_binding_update, pbu_process, process_entry, bind_entry, register, deregister,
  pbu_mag_checkin, pbu_get_be, register_new, add_route_entries, del_route_entries, add_all,
  remove_all, run, step, mp_receive, expired_entry,
}
use odi_mm.Lma.Sound.{AllSound}
use odi_mm.Lma.Invariant.{run-AllSound}
use odi_mm.Lma.Accepts.{IsBound, pbu_process-IsBound}
use odi_mm.Lma.Leaks.{Arrival, arrivals, malformed_deafen}
use odi_mm.Lma.Users.{handoff-count, renewal_leak}

-- The value of a run, or the state before it.
abbrev pub value_or : {B : Type 0} → B → Run B → B
value_or d (done b) = b
value_or d threw = d
value_or d asserted = d
value_or d undefined = d

-- A registration of node 97 in an empty anchor.
abbrev registered : Lma ℕ × ProxyBindingInfo ℕ
registered = value_or (idle, update) (pbu_process agreeable idle update)

pub idle-AllSound : AllSound idle.node_db idle.bcache
unfolding find
idle-AllSound = record { at = λ id be h. absurd (cc h) }

pbu_process-IsBound_example : IsBound update registered.0.bcache
unfolding pbu_process process_entry bind_entry register deregister pbu_mag_checkin pbu_get_be
    register_new add_route_entries add_all Tunnels.get Routes.add_by_dst find put list_beq insert
    bcache_entry ◌>>=◌
pbu_process-IsBound_example =
    pbu_process-IsBound agreeable idle registered.0 update registered.1 idle-AllSound (omega arith)
      refl refl

abbrev stranger : ProxyBindingInfo ℕ
stranger = record update { address = 5 }

one_tunnel-collects : IsCollectable one_tunnel
unfolding find
one_tunnel-collects = record { listed = λ k. ground arith }

-- A handoff of node 97 from gateway 1 to gateway 2.
abbrev arrival : ProxyBindingInfo ℕ
arrival = record update { address = 2 }

abbrev handed_over : Lma ℕ
handed_over = value_or holding (proxy_binding_update agreeable holding arrival)

handoff-count_example : count handed_over.tunnels 1 ≡ 0
unfolding proxy_binding_update pbu_process process_entry bind_entry register deregister
    pbu_mag_checkin pbu_get_be add_route_entries del_route_entries add_all remove_all Tunnels.get
    Tunnels.del Routes.add_by_dst Routes.remove_by_dst find put erase list_beq prefix_beq ◌>>=◌
handoff-count_example =
    handoff-count agreeable holding handed_over arrival binding 1 refl refl refl refl refl
      (omega arith) refl one_tunnel-collects (omega arith) refl

abbrev renewed : Lma ℕ
renewed = value_or holding (proxy_binding_update agreeable holding update)

renewal_leak_example : count renewed.tunnels 1 ≡ 2
unfolding proxy_binding_update pbu_process process_entry bind_entry register deregister
    pbu_mag_checkin pbu_get_be add_route_entries add_all Tunnels.get Routes.add_by_dst find put
    erase list_beq prefix_beq validate_sequence_number ◌>>=◌
renewal_leak_example =
    renewal_leak agreeable holding renewed update binding 1 refl refl refl (omega arith) refl
      one_tunnel-collects (omega arith) refl

-- A datagram of one byte.
abbrev short : Arrival ℕ
short = record { kernel = agreeable; endpoint = 5; rbytes = 1; buffer = 0 ∷ [] }

malformed_deafen_example :
    run idle (arrivals (short ∷ []) (short ∷ [])) ≡ done (record idle { receivers = 0 })
unfolding pbu_parse header_cast
malformed_deafen_example = malformed_deafen idle (short ∷ []) (short ∷ []) (refl, tt) refl

-- What pbu_sender sends for the registration of node 97, of 48 bytes.
abbrev datagram : List ℕ
datagram =
    0x3b
    ∷ 5
    ∷ 5
    ∷ 0
    ∷ 0
    ∷ 0
    ∷ 0
    ∷ 6
    ∷ 0x82
    ∷ 0
    ∷ 0
    ∷ 15
    ∷ 8
    ∷ 2
    ∷ 1
    ∷ 97
    ∷ 22
    ∷ 18
    ∷ 0
    ∷ 0
    ∷ (replicate 16 0 ++ (23 ∷ 2 ∷ 0 ∷ 4 ∷ 24 ∷ 2 ∷ 0 ∷ 4 ∷ 0 ∷ 0 ∷ 0 ∷ 0 ∷ []))

-- The anchor is started, registers node 97, and its expiry timer fires.
abbrev events : List (Kernel ℕ × Event ℕ)
events =
    (agreeable, receives 1 48 datagram)
    ∷ (agreeable, expires false (97 ∷ []))
    ∷ (agreeable, receives 5 1 (0 ∷ []))
    ∷ []

abbrev served : Lma ℕ
served = value_or idle (run idle events)

run-AllSound_example : AllSound idle.node_db served.bcache
unfolding run step mp_receive expired_entry proxy_binding_update pbu_process process_entry
    bind_entry register deregister pbu_mag_checkin pbu_get_be register_new add_route_entries add_all
    Tunnels.get Routes.add_by_dst find put list_beq prefix_beq insert bcache_entry pbu_parse
    get_flag header_cast ◌>>=◌
run-AllSound_example = run-AllSound idle served events refl refl

-- The run above ends with the binding expired, and one receive less.
served_lem :
    (lookup served.bcache (97 ∷ [])
      ≡ some (record binding {
        sequence = 6;
        bind_status = bind_deregistered;
        timer = some (removes_in 10000);
      }))
    × (served.receivers ≡ 0)
unfolding run step mp_receive expired_entry proxy_binding_update pbu_process process_entry
    bind_entry register deregister pbu_mag_checkin pbu_get_be register_new add_route_entries add_all
    Tunnels.get Routes.add_by_dst find put list_beq prefix_beq insert bcache_entry pbu_parse
    get_flag header_cast ◌>>=◌
served_lem = (refl, refl)

abbrev unchanged : ProxyBindingInfo ℕ
unchanged = record update { handoff = 5 }

abbrev routed : Lma ℕ
routed = value_or idle (add_route_entries agreeable idle binding)

add_route_entries-has_route_example : has_route routed.routes home ≡ true
unfolding add_route_entries add_all Tunnels.get Routes.add_by_dst find put list_beq prefix_beq ◌>>=◌
add_route_entries-has_route_example =
    add_route_entries-has_route agreeable idle routed binding home refl

abbrev unrouted : Lma ℕ
unrouted = value_or holding (del_route_entries agreeable holding binding)

del_route_entries-has_route_example : has_route unrouted.routes home ≡ false
unfolding del_route_entries remove_all Tunnels.del Routes.remove_by_dst find put erase list_beq
    prefix_beq ◌>>=◌
del_route_entries-has_route_example =
    del_route_entries-has_route agreeable holding unrouted binding home refl

-- The registration of node 97 as it is received from gateway 1 after an attachment.
abbrev pub first_update : ProxyBindingInfo ℕ
first_update = record {
  id = 97 ∷ [];
  address = 1;
  lifetime = 60;
  sequence = 10;
  handoff = 4;
  status = 0;
  prefix_list = home ∷ [];
  link_type = 0;
}

abbrev pub first_registered : Lma ℕ × ProxyBindingInfo ℕ
first_registered = value_or (idle, first_update) (pbu_process agreeable idle first_update)

pub first_update-processed :
    (pbu_process agreeable idle first_update ≡ done first_registered)
    × (first_registered.1.status ≡ 0)
unfolding pbu_process process_entry bind_entry register deregister pbu_mag_checkin pbu_get_be
    register_new add_route_entries add_all Tunnels.get Routes.add_by_dst find put list_beq insert
    bcache_entry ◌>>=◌
first_update-processed = (refl, refl)
