-- ===== src/Mag.antt =====
-- pmip/mag.cpp: the mobile access gateway. As for the anchor, a handler takes the object and returns
-- it. The calls of the address configuration server are kept in a list, and so are the messages
-- sent and the completions reported. The delay measurements and the log are left out.
pub mod State
pub mod Acks
pub mod Retries
pub mod Delivery
pub mod Examples
use odi_mm.Base.{
  ℕ, ◌+◌, ◌-◌, ◌*◌, ◌/◌, ◌%◌, ◌^◌, Bool, true, false, not, ◌&&◌, ◌||◌, List, [], ◌∷◌, Option, none,
  some, put, find, erase, nat_beq, ltb, leb, Eq, ◌==◌, nat_eq, list_eq, if◌then◌else◌,
}
use odi_mm.Run.{Run, done, threw, asserted, undefined, ◌>>=◌, ◌>>◌}
use odi_mm.Types.{
  Prefix, ProxyBindingInfo, AddressOps, address_eq, proxy_binding_info, status_ok,
  status_bad_sequence, handoff_unknown, handoff_not_changed,
}
use odi_mm.Routes
use odi_mm.Routes.{RouteTable, Request, Answer}
use odi_mm.Tunnels
use odi_mm.Tunnels.{Tunnels}
use odi_mm.NodeDb
use odi_mm.NodeDb.{NodeDb, RouterNode, MobileNode}
use odi_mm.Bulist
use odi_mm.Bulist.{
  Bulist, BulistEntry, BindStatus, Wait, bind_unknown, bind_requested, bind_renewing, bind_ack,
  bind_detach, bind_error, retries, renews, bulist_entry, find_by_id, store,
}
use odi_mm.Wire.Message.{Outcome, Fault}
use odi_mm.Wire.Receiver.{pba_parse}
use odi_mm.Lma.State.{Kernel}
use odi_mm.Lma.{add_all, remove_all}
use odi_mm.Mag.State.{
  Code, Call, Mag, AttachInfo, is_requested, is_renewing, is_ack, is_detach, is_error, attach_delay,
  request_delay, retry_delay, renew_delay, code_of, ec_none, ec_not_authorized, ec_unknown_lma,
  ec_invalid_state, ec_canceled, ec_timeout, ec_status, advertises, withdraws, starts, clears,
  stops,
}

module _ {A : Type 0} ⦃ops : AddressOps A⦄ where
  -- report_completion
  abbrev pub report : Option ℕ → Code → Mag A → Mag A
  report none ec mag = mag
  report (some h) ec mag = record mag { reports = (h, ec) ∷ mag.reports }

  -- The message that every request is made of.
  unfoldable pub binding_update : BulistEntry A → ℕ → ℕ → ProxyBindingInfo A
  unfolding proxy_binding_info
  binding_update be lifetime handoff = record (proxy_binding_info {A = A}) {
    id = be.mn_id;
    address = be.lma_address;
    sequence = (be.sequence_number + 1) % 65536;
    lifetime = lifetime;
    prefix_list = be.mn_prefix_list;
    handoff = handoff;
  }

  add_all_src : (Request → Answer) → RouteTable A → List Prefix → ℕ → Run (RouteTable A)
  add_all_src send t [] device = done t
  add_all_src send t (p ∷ ps) device = do
    t' ← Routes.add_by_src send t p device
    add_all_src send t' ps device

  remove_all_src : (Request → Answer) → RouteTable A → List Prefix → Run (RouteTable A)
  remove_all_src send t [] = done t
  remove_all_src send t (p ∷ ps) = do t' ← Routes.remove_by_src send t p; remove_all_src send t' ps

  pub add_route_entries : Kernel A → Mag A → BulistEntry A → Run (Mag A)
  add_route_entries k mag be = do
    (tunnels, tdev) ← Tunnels.get k.open_tunnel mag.tunnels be.lma_address
    t ← add_all k.checked_send mag.routes be.mn_prefix_list be.poa_dev_id
    routes ← add_all_src k.checked_send t be.mn_prefix_list tdev
    done (record mag {
      tunnels = tunnels;
      routes = routes;
      addrconf =
          advertises be.poa_dev_id be.poa_address be.mn_link_address be.mtu be.mn_prefix_list
            be.home_address mag.link_local_ip
          ∷ mag.addrconf;
    })

  pub del_route_entries : Kernel A → Mag A → BulistEntry A → Run (Mag A)
  del_route_entries k mag be = do
    t ← remove_all k.checked_send mag.routes be.mn_prefix_list
    routes ← remove_all_src k.checked_send t be.mn_prefix_list
    done (record mag {
      tunnels = Tunnels.del mag.tunnels be.lma_address;
      routes = routes;
      addrconf = withdraws be.mn_link_address ∷ mag.addrconf;
    })

  -- A message is sent for the entry, its status and timer are set, and its handler is replaced.
  pub ask : Mag A → BulistEntry A → BindStatus → ProxyBindingInfo A → ℕ → Option ℕ → Mag A
  ask mag be status pb delay handler = report be.completion ec_canceled (record mag {
    bulist =
        store
          (record be {
            sequence_number = pb.sequence;
            bind_status = status;
            retry_count = 0;
            timer = some (retries delay pb);
            completion = handler;
          })
          mag.bulist;
    sent = pb ∷ mag.sent;
  })

  -- The second half of `mobile_node_attach_`.
  attach_entry : Mag A → BulistEntry A → Option ℕ → Mag A
  attach_entry mag be handler =
      if is_error be.bind_status
      then report handler ec_invalid_state mag
      else ask mag be bind_requested (binding_update be be.lifetime handoff_unknown) attach_delay
          handler

  -- A new entry. An entry that the list deletes is used all the same.
  attach_new : Mag A → BulistEntry A → Option ℕ → Run (Mag A)
  attach_new mag be handler =
      let (l, inserted) = Bulist.insert mag.bulist be in
      if inserted then done (attach_entry (record mag { bulist = l }) be handler) else undefined

  pub mobile_node_attach_ : ℕ → Mag A → AttachInfo → Option ℕ → Run (Mag A)
  mobile_node_attach_ now mag ai handler = elim (find_by_id mag.bulist ai.mn_id) [
    | some be ↦ done (attach_entry mag be handler)
    | none ↦ elim (NodeDb.find_mobile_node mag.node_db ai.mn_id) [
      | none ↦ done (report handler ec_not_authorized mag)
      | some mn ↦ elim (NodeDb.find_router_by_id mag.node_db mn.lma_id) [
        | none ↦ done (report handler ec_unknown_lma mag)
        | some lma ↦
            attach_new mag
              (bulist_entry now mn.id ai.mn_address mn.prefix_list mn.home_address lma.address
                ai.poa_dev_id ai.poa_address)
              handler
      ]
    ]
  ]

  detach_entry : Kernel A → Mag A → BulistEntry A → Option ℕ → Run (Mag A)
  detach_entry k mag be handler = do
    mag' ← (if is_ack be.bind_status then del_route_entries k mag be else done mag)
    done (ask mag' be bind_detach (binding_update be 0 handoff_unknown) request_delay handler)

  pub mobile_node_detach_ : Kernel A → Mag A → AttachInfo → Option ℕ → Run (Mag A)
  mobile_node_detach_ k mag ai handler = elim (NodeDb.find_mobile_node mag.node_db ai.mn_id) [
    | none ↦ done (report handler ec_not_authorized mag)
    | some mn ↦ elim (find_by_id mag.bulist mn.id) [
      | none ↦ done (report handler ec_invalid_state mag)
      | some be ↦
          if not (is_requested be.bind_status || is_ack be.bind_status)
          then done (report handler ec_invalid_state mag)
          else detach_entry k mag be handler
    ]
  ]

  -- A bad sequence number: the message is sent again with the number that follows the one that the
  -- anchor gave.
  ack_bad_sequence : Mag A → BulistEntry A → ProxyBindingInfo A → Mag A
  ack_bad_sequence mag be pb =
      let be' : BulistEntry A = record be { sequence_number = pb.sequence } in
      let lifetime = if is_detach be.bind_status then 0 else be.lifetime in
      let again = binding_update be' lifetime handoff_unknown in
      record mag {
        bulist =
            store
              (record be' {
                sequence_number = again.sequence;
                timer = some (retries request_delay again);
              })
              mag.bulist;
        sent = again ∷ mag.sent;
      }

  -- The completion of a request is reported, that of a renewal is not.
  abbrev settled : BulistEntry A → ProxyBindingInfo A → Mag A → Mag A
  settled be pb mag =
      if is_requested be.bind_status then report be.completion (code_of pb.status) mag else mag

  abbrev kept_completion : BulistEntry A → Option ℕ
  kept_completion be = if is_requested be.bind_status then none else be.completion

  ack_registration : Kernel A → Mag A → BulistEntry A → ProxyBindingInfo A → Run (Mag A)
  ack_registration k mag be pb =
      if nat_beq pb.status status_ok
      then ((if is_requested be.bind_status then add_route_entries k mag be else done mag)
          >>= λ mag'.
              let mag'' = settled be pb mag' in
              done (record mag'' {
                bulist =
                    store
                      (record be {
                        bind_status = bind_ack;
                        timer = some (renews (renew_delay pb.lifetime));
                        completion = kept_completion be;
                      })
                      mag''.bulist;
              }))
      else let mag'' = settled be pb mag in
        done (record mag'' { bulist = Bulist.remove mag''.bulist be })

  -- The test of the status is the one of the source.
  ack_deregistration : Mag A → BulistEntry A → ProxyBindingInfo A → Mag A
  ack_deregistration mag be pb =
      let ec = if nat_beq pb.status status_ok then ec_status pb.status else ec_none in
      let mag' = report be.completion ec mag in
      record mag' { bulist = Bulist.remove mag'.bulist be }

  -- The sequence number matches.
  pub ack_entry : Kernel A → Mag A → BulistEntry A → ProxyBindingInfo A → Run (Mag A)
  ack_entry k mag be pb =
      if not (nat_beq pb.lifetime 0) && (is_requested be.bind_status || is_renewing be.bind_status)
      then ack_registration k mag be pb
      else if nat_beq pb.lifetime 0 && is_detach be.bind_status
      then done (ack_deregistration mag be pb)
      else done mag

  pub proxy_binding_ack : Kernel A → Mag A → ProxyBindingInfo A → Run (Mag A)
  proxy_binding_ack k mag pb = elim (find_by_id mag.bulist pb.id) [
    | none ↦ done mag
    | some be ↦
        if not (be.lma_address == pb.address)
        then done mag
        else if nat_beq pb.status status_bad_sequence
        then done (ack_bad_sequence mag be pb)
        else if not (nat_beq pb.sequence be.sequence_number)
        then done mag
        else ack_entry k mag be pb
  ]

  retry_entry : Mag A → BulistEntry A → ProxyBindingInfo A → Mag A
  retry_entry mag be pb =
      let count = (be.retry_count + 1) % Tunnels.uint_mod in
      if is_detach be.bind_status && ltb 3 count
      then (let mag' = report be.completion ec_timeout mag in
          record mag' { bulist = Bulist.remove mag'.bulist be })
      else record mag {
        bulist =
            store (record be { retry_count = count; timer = some (retries (retry_delay count) pb) })
              mag.bulist;
        sent = pb ∷ mag.sent;
      }

  pub proxy_binding_retry : Mag A → Bool → ProxyBindingInfo A → Mag A
  proxy_binding_retry mag true pb = mag
  proxy_binding_retry mag false pb = elim (find_by_id mag.bulist pb.id) [
    | none ↦ mag
    | some be ↦
        if is_requested be.bind_status || is_renewing be.bind_status || is_detach be.bind_status
        then retry_entry mag be pb
        else mag
  ]

  -- A renewal keeps the completion handler of the entry.
  renew_entry : Mag A → BulistEntry A → Mag A
  renew_entry mag be =
      let pb = binding_update be be.lifetime handoff_not_changed in
      record mag {
        bulist =
            store
              (record be {
                sequence_number = pb.sequence;
                bind_status = bind_renewing;
                retry_count = 0;
                timer = some (retries request_delay pb);
              })
              mag.bulist;
        sent = pb ∷ mag.sent;
      }

  pub proxy_binding_renew : Mag A → Bool → List ℕ → Mag A
  proxy_binding_renew mag true id = mag
  proxy_binding_renew mag false id = elim (find_by_id mag.bulist id) [
    | none ↦ mag
    | some be ↦ renew_entry mag be
  ]

  pub mp_receive : Kernel A → Mag A → A → ℕ → List ℕ → Run (Mag A)
  mp_receive k mag endpoint rbytes buffer =
      if nat_beq mag.receivers 0 then done mag else elim (pba_parse endpoint rbytes buffer) [
        | Outcome.ok pb ↦ proxy_binding_ack k mag pb
        | Outcome.refused ↦ done (record mag { receivers = mag.receivers - 1 })
        | Outcome.fault Fault.length_error ↦ threw
        | Outcome.fault Fault.assertion ↦ asserted
        | Outcome.fault Fault.out_of_bounds ↦ undefined
        | Outcome.exhausted ↦ undefined
      ]

  start_router : Mag A → List ℕ → A → Bool → Option (RouterNode A) → Run (Mag A)
  start_router mag id link_local_ip tunnel_global_address none = threw
  start_router mag id link_local_ip tunnel_global_address (some node) = done (record mag {
    identifier = id;
    link_local_ip = link_local_ip;
    tunnels =
        Tunnels.open_ mag.tunnels (ops.with_scope node.address node.device_id)
          tunnel_global_address;
    addrconf = starts ∷ mag.addrconf;
    receivers = mag.receivers + mag.concurrency;
  })

  -- `is_link_local` is boost's test on the address.
  pub start_ : (A → Bool) → Mag A → List ℕ → A → Bool → Run (Mag A)
  start_ is_link_local mag id link_local_ip tunnel_global_address =
      if not (is_link_local link_local_ip)
      then threw
      else start_router mag id link_local_ip tunnel_global_address
          (NodeDb.find_router_by_id mag.node_db id)

  pub stop_ : Mag A → Mag A
  stop_ mag = record mag {
    bulist = Bulist.clear mag.bulist;
    addrconf = stops ∷ clears ∷ mag.addrconf;
    receivers = 0;
    routes = Routes.clear mag.routes;
    tunnels = Tunnels.close mag.tunnels;
  }
