-- ===== src/Lma.antt =====
-- pmip/lma.cpp: the local mobility anchor. The object is a record, and a handler returns it. The
-- kernel's answers are a parameter of each call, so they may change from one call to the next. The
-- strand runs one handler at a time; logging and the delay measurements are left out.
pub mod State
pub mod Sound
pub mod CheckIn
pub mod Update
pub mod Invariant
pub mod Replies
pub mod Accepts
pub mod Delivery
pub mod Leaks
pub mod Users
pub mod Routing
pub mod Examples
use odi_mm.Base.{
  ℕ, ◌+◌, ◌-◌, Bool, true, false, not, ◌&&◌, ◌||◌, List, [], ◌∷◌, Option, none, some, Assoc, find,
  put, erase, nat_beq, Eq, ◌==◌, nat_eq, list_eq, if◌then◌else◌,
}
use odi_mm.Run.{Run, done, threw, asserted, undefined, check, ◌>>=◌, ◌>>◌}
use odi_mm.Types.{
  Prefix, ProxyBindingInfo, AddressOps, address_eq, status_ok, status_bad_sequence,
  status_not_lma_for_this_mn, status_not_authorized_for_proxy_reg, handoff_not_changed,
}
use odi_mm.Sequence.{validate_sequence_number}
use odi_mm.Routes
use odi_mm.Routes.{RouteTable, Request, Answer}
use odi_mm.Tunnels
use odi_mm.Tunnels.{Tunnels}
use odi_mm.NodeDb
use odi_mm.NodeDb.{NodeDb, RouterNode, MobileNode, is_some}
use odi_mm.Bcache
use odi_mm.Bcache.{
  Bcache, BcacheEntry, BindStatus, bind_unknown, bind_registered, bind_deregistered, expires_in,
  removes_in, bcache_entry,
}
use odi_mm.Wire.Message.{Outcome, Fault}
use odi_mm.Wire.Receiver.{pbu_parse}
use odi_mm.Lma.State.{
  Kernel, Lma, Event, min_delay_before_bce_delete, is_registered, is_deregistered, is_unknown,
  receives, expires, removes, starts, stops,
}

module _ {A : Type 0} ⦃ops : AddressOps A⦄ where
  -- What the code writes through the pointer to an entry.
  abbrev pub store : BcacheEntry A → Lma A → Lma A
  store be lma = record lma { bcache = put be.id be lma.bcache }

  -- The loops over the prefix list.
  unfoldable pub add_all : (Request → Answer) → RouteTable A → List Prefix → ℕ → Run (RouteTable A)
  add_all send t [] device = done t
  add_all send t (p ∷ ps) device = do
    t' ← Routes.add_by_dst send t p device
    add_all send t' ps device

  pub remove_all : (Request → Answer) → RouteTable A → List Prefix → Run (RouteTable A)
  remove_all send t [] = done t
  remove_all send t (p ∷ ps) = do t' ← Routes.remove_by_dst send t p; remove_all send t' ps

  pub add_route_entries : Kernel A → Lma A → BcacheEntry A → Run (Lma A)
  add_route_entries k lma be = do
    (tunnels, tdev) ← Tunnels.get k.open_tunnel lma.tunnels be.care_of_address
    routes ← add_all k.checked_send lma.routes be.prefix_list tdev
    done (record lma { tunnels = tunnels; routes = routes })

  pub del_route_entries : Kernel A → Lma A → BcacheEntry A → Run (Lma A)
  del_route_entries k lma be = do
    routes ← remove_all k.checked_send lma.routes be.prefix_list
    done (record lma { tunnels = Tunnels.del lma.tunnels be.care_of_address; routes = routes })

  -- The entry of the mobile node, found or made; `none` is `nullptr`.
  register_new :
      Lma A
      → ProxyBindingInfo A
      → MobileNode A
      → Lma A × ProxyBindingInfo A × Option (BcacheEntry A)
  register_new lma pb mn =
      if not (mn.lma_id == lma.identifier)
      then (lma, record pb { status = status_not_lma_for_this_mn }, none)
      else if nat_beq pb.lifetime 0
      then (lma, pb, none)
      else let be = bcache_entry pb.id mn.prefix_list in
        (record lma { bcache = (Bcache.insert lma.bcache be).0 }, pb, some be)

  pub pbu_get_be : Lma A → ProxyBindingInfo A → Lma A × ProxyBindingInfo A × Option (BcacheEntry A)
  pbu_get_be lma pb = elim (Bcache.lookup lma.bcache pb.id) [
    | some be ↦ (lma, pb, some be)
    | none ↦
        if not (is_some (NodeDb.find_router lma.node_db pb.address))
        then (lma, record pb { status = status_not_authorized_for_proxy_reg }, none)
        else elim (NodeDb.find_mobile_node lma.node_db pb.id) [
          | none ↦ (lma, record pb { status = status_not_lma_for_this_mn }, none)
          | some mn ↦ register_new lma pb mn
        ]
  ]

  -- The entry moves to another gateway.
  abbrev moved : BcacheEntry A → ProxyBindingInfo A → BcacheEntry A
  moved be pb = record be {
    care_of_address = pb.address;
    lifetime = pb.lifetime;
    sequence = pb.sequence;
    link_type = pb.link_type;
    bind_status = bind_unknown;
  }

  pub pbu_mag_checkin :
      Kernel A
      → Lma A
      → BcacheEntry A
      → ProxyBindingInfo A
      → Run (Lma A × ProxyBindingInfo A × BcacheEntry A × Bool)
  pbu_mag_checkin k lma be pb =
      if not (be.care_of_address == pb.address)
      then (if nat_beq pb.handoff handoff_not_changed
          then done (lma, record pb { status = status_not_authorized_for_proxy_reg }, be, false)
          else if not (is_some (NodeDb.find_router lma.node_db pb.address))
          then done (lma, record pb { status = status_not_authorized_for_proxy_reg }, be, false)
          else if nat_beq pb.lifetime 0
          then done (lma, pb, be, false)
          else if ops.is_unspecified be.care_of_address
          then done (lma, pb, moved be pb, true)
          else (del_route_entries k lma be >>= λ lma'. done (lma', pb, moved be pb, true)))
      else if not (validate_sequence_number be.sequence pb.sequence)
      then done (lma, record pb { status = status_bad_sequence; sequence = be.sequence }, be, false)
      else done (lma, pb, record be { lifetime = pb.lifetime; sequence = pb.sequence }, true)

  -- The two halves of `pbu_process` after the entry is found and checked in.
  register : Kernel A → Lma A → ProxyBindingInfo A → BcacheEntry A → Run (Lma A × BcacheEntry A)
  register k lma pb be =
      if nat_beq pb.lifetime 0
      then done (lma, be)
      else (add_route_entries k lma (record be { timer = none; bind_status = bind_registered })
          >>= λ lma'. done (
            lma',
            record be { bind_status = bind_registered; timer = some (expires_in pb.lifetime) },
          ))

  deregister : Kernel A → Lma A → ProxyBindingInfo A → BcacheEntry A → Run (Lma A × BcacheEntry A)
  deregister k lma pb be =
      if nat_beq pb.lifetime 0 && is_registered be.bind_status
      then (del_route_entries k lma (record be { timer = none; bind_status = bind_deregistered })
          >>= λ lma'. done (
            lma',
            record be {
              bind_status = bind_deregistered;
              care_of_address = ops.any;
              timer = some (removes_in min_delay_before_bce_delete);
            },
          ))
      else done (lma, be)

  bind_entry : Kernel A → Lma A → ProxyBindingInfo A → BcacheEntry A → Run (Lma A)
  bind_entry k lma pb be = do
    (lma1, be1) ← register k lma pb be
    check (not (is_unknown be1.bind_status))
    (lma2, be2) ← deregister k lma1 pb be1
    done (store be2 lma2)

  process_entry :
      Kernel A → Lma A → ProxyBindingInfo A → BcacheEntry A → Run (Lma A × ProxyBindingInfo A)
  process_entry k lma pb be = do
    (lma', pb', be', accepted) ← pbu_mag_checkin k lma be pb
    elim accepted [
      | true ↦ bind_entry k lma' pb' be' >>= λ lma''. done (lma'', pb')
      | false ↦ done (lma', pb')
    ]

  pub pbu_process : Kernel A → Lma A → ProxyBindingInfo A → Run (Lma A × ProxyBindingInfo A)
  pbu_process k lma pb =
      let (lma', pb', found) = pbu_get_be lma pb in
      elim found [ none ↦ done (lma', pb') | some be ↦ process_entry k lma' pb' be ]

  pub proxy_binding_update : Kernel A → Lma A → ProxyBindingInfo A → Run (Lma A)
  proxy_binding_update k lma pb =
      if not (nat_beq pb.status status_ok)
      then done lma
      else (pbu_process k lma pb >>= λ r. done (record r.0 { sent = r.1 ∷ r.0.sent }))

  -- The timer handlers. `failed` is an error code, which a cancelled wait has.
  pub expired_entry : Lma A → Bool → List ℕ → Lma A
  expired_entry lma true mn_id = lma
  expired_entry lma false mn_id = elim (Bcache.lookup lma.bcache mn_id) [
    | none ↦ lma
    | some be ↦
        if not (is_registered be.bind_status)
        then lma
        else store
            (record be {
              bind_status = bind_deregistered;
              timer = some (removes_in min_delay_before_bce_delete);
            })
            lma
  ]

  pub remove_entry : Lma A → Bool → List ℕ → Lma A
  remove_entry lma true mn_id = lma
  remove_entry lma false mn_id = elim (Bcache.lookup lma.bcache mn_id) [
    | none ↦ lma
    | some be ↦
        if not (is_deregistered be.bind_status)
        then lma
        else record lma { bcache = Bcache.remove lma.bcache be }
  ]

  -- A datagram arrives at one of the pending receives. The receive is started again only if the
  -- datagram parses.
  pub mp_receive : Kernel A → Lma A → A → ℕ → List ℕ → Run (Lma A)
  mp_receive k lma endpoint rbytes buffer =
      if nat_beq lma.receivers 0 then done lma else elim (pbu_parse endpoint rbytes buffer) [
        | Outcome.ok pb ↦ proxy_binding_update k lma pb
        | Outcome.refused ↦ done (record lma { receivers = lma.receivers - 1 })
        | Outcome.fault Fault.length_error ↦ threw
        | Outcome.fault Fault.assertion ↦ asserted
        | Outcome.fault Fault.out_of_bounds ↦ undefined
        | Outcome.exhausted ↦ undefined
      ]

  start_router : Lma A → List ℕ → Bool → Option (RouterNode A) → Run (Lma A)
  start_router lma id tunnel_global_address none = threw
  start_router lma id tunnel_global_address (some node) = done (record lma {
    identifier = id;
    tunnels =
        Tunnels.open_ lma.tunnels (ops.with_scope node.address node.device_id)
          tunnel_global_address;
    receivers = lma.receivers + lma.concurrency;
  })

  pub start_ : Lma A → List ℕ → Bool → Run (Lma A)
  start_ lma id tunnel_global_address =
      start_router lma id tunnel_global_address (NodeDb.find_router_by_id lma.node_db id)

  -- Closing the socket ends the pending receives with an error.
  pub stop_ : Lma A → Lma A
  stop_ lma = record lma {
    bcache = [];
    receivers = 0;
    routes = Routes.clear lma.routes;
    tunnels = Tunnels.close lma.tunnels;
  }

  pub step : Kernel A → Lma A → Event A → Run (Lma A)
  step k lma (receives endpoint rbytes buffer) = mp_receive k lma endpoint rbytes buffer
  step k lma (expires failed id) = done (expired_entry lma failed id)
  step k lma (removes failed id) = done (remove_entry lma failed id)
  step k lma (starts id tunnel_global_address) = start_ lma id tunnel_global_address
  step k lma stops = done (stop_ lma)

  pub run : Lma A → List (Kernel A × Event A) → Run (Lma A)
  run lma [] = done lma
  run lma ((k, e) ∷ es) = do lma' ← step k lma e; run lma' es
