-- ===== src/Mag/Delivery.antt =====
-- An attachment of the gateway of pmip/mag.cpp, and the acknowledgement that completes it.
use odi_mm.Base.{
  ◌⊎◌, inl, inr, find, put, ℕ, ◌<◌, ◌≡◌, refl, sym, ap, ◌∙◌, true, false, List, ◌∷◌, Option, none,
  some, arith, find-put, nat_beq, eq_refl, nat_eq, list_eq,
}
use mathlib.Core.Path.{subst}
use odi_mm.Run.{Run, done, ◌>>=◌, Ensures, Ensures-done, Ensures-bind}
use odi_mm.Types.{ProxyBindingInfo, AddressOps, address_eq, status_ok, handoff_unknown}
use odi_mm.Wire.Message.{ok}
use odi_mm.Wire.Receiver.{pba_parse}
use odi_mm.NodeDb.{MobileNode, RouterNode, find_mobile_node, find_router_by_id}
use odi_mm.Bulist.{
  Bulist, BulistEntry, bulist_entry, insert, bind_requested, bind_ack, retries, renews, find_by_id,
  store,
}
use odi_mm.Lma.State.{Kernel}
use odi_mm.Mag.State.{
  Mag, AttachInfo, Code, advertises, ec_none, ec_canceled, attach_delay, renew_delay, is_requested,
  is_error,
}
use odi_mm.Mag.{
  report, binding_update, ask, attach_entry, attach_new, mobile_node_attach_, add_route_entries,
  ack_registration, ack_entry, proxy_binding_ack, mp_receive,
}
use odi_mm.Mag.Acks.{reached}

module _ {A : Type 0} ⦃ops : AddressOps A⦄ where
  -- The entry that an attachment leaves, with the update that it sends.
  abbrev pub requested : BulistEntry A → Option ℕ → BulistEntry A
  requested be handler = record be {
    sequence_number = (binding_update be be.lifetime handoff_unknown).sequence;
    bind_status = bind_requested;
    retry_count = 0;
    timer = some (retries attach_delay (binding_update be be.lifetime handoff_unknown));
    completion = handler;
  }

  abbrev pub attached : Mag A → BulistEntry A → Option ℕ → Mag A
  attached mag be handler =
      ask mag be bind_requested (binding_update be be.lifetime handoff_unknown) attach_delay handler

  -- An attachment of a node that the list has, whose last binding did not fail.
  attach-known :
      (now : ℕ) (mag : Mag A) (ai : AttachInfo) (handler : Option ℕ) (be : BulistEntry A)
      → find_by_id mag.bulist ai.mn_id ≡ some be
      → is_error be.bind_status ≡ false
      → mobile_node_attach_ now mag ai handler ≡ done (attached mag be handler)
  unfolding mobile_node_attach_ attach_entry
  attach-known now mag ai handler be h fine = rw (mobile_node_attach_, h, attach_entry, fine) refl

  -- A node that the list does not have: the database knows it and its anchor, and no entry has its
  -- link address. `be` is the entry that is made for it.
  pub record IsNewcomer (now : ℕ) (mag : Mag A) (ai : AttachInfo) (be : BulistEntry A)
      : Type 0 where
    pub mobile : MobileNode A
    pub anchor : RouterNode A
    pub absent : find_by_id mag.bulist ai.mn_id ≡ none
    pub listed : find_mobile_node mag.node_db ai.mn_id ≡ some mobile
    pub named : mobile.id ≡ ai.mn_id
    pub served : find_router_by_id mag.node_db mobile.lma_id ≡ some anchor
    pub free : find ai.mn_address mag.bulist.by_link ≡ none
    pub entry :
        be
        ≡ bulist_entry now mobile.id ai.mn_address mobile.prefix_list mobile.home_address
            anchor.address ai.poa_dev_id ai.poa_address

  -- The gateway with a new entry in its list.
  abbrev pub enlisted : Mag A → BulistEntry A → Mag A
  enlisted mag be = record mag {
    bulist = record {
      by_id = put be.mn_id be mag.bulist.by_id;
      by_link = put be.mn_link_address be.mn_id mag.bulist.by_link;
    };
  }

  -- The first attachment of a node.
  attach-newcomer :
      (now : ℕ) (mag : Mag A) (ai : AttachInfo) (handler : Option ℕ) (be : BulistEntry A)
      → IsNewcomer now mag ai be
      → mobile_node_attach_ now mag ai handler ≡ done (attached (enlisted mag be) be handler)
  unfolding mobile_node_attach_ attach_new attach_entry insert bulist_entry
  attach-newcomer now mag ai handler be v =
      let made =
        bulist_entry now v.mobile.id ai.mn_address v.mobile.prefix_list v.mobile.home_address
          v.anchor.address ai.poa_dev_id ai.poa_address in
      let absent' : find v.mobile.id mag.bulist.by_id ≡ none =
        subst (λ i. find i mag.bulist.by_id ≡ none) (sym v.named) v.absent in
      let runs : mobile_node_attach_ now mag ai handler
          ≡ done (attached (enlisted mag made) made handler) =
        rw (v.absent, v.listed, v.served, mobile_node_attach_, attach_new, insert, absent', v.free)
          refl in
      subst
        (λ e. mobile_node_attach_ now mag ai handler ≡ done (attached (enlisted mag e) e handler))
        (sym v.entry) runs

  -- An attachment of a node that the list has, or of one that it does not have yet: `mag0` is the
  -- gateway with the entry.
  pub attach-entered :
      (now : ℕ) (mag mag0 : Mag A) (ai : AttachInfo) (handler : Option ℕ) (be : BulistEntry A)
      → ((find_by_id mag.bulist ai.mn_id ≡ some be)
          × (is_error be.bind_status ≡ false)
          × (mag0 ≡ mag))
        ⊎ (IsNewcomer now mag ai be × (mag0 ≡ enlisted mag be))
      → (mobile_node_attach_ now mag ai handler ≡ done (attached mag0 be handler))
        × (mag0.receivers ≡ mag.receivers)
  attach-entered now mag mag0 ai handler be (inl (there, fine, same)) =
      (rw same (attach-known now mag ai handler be there fine), rw same refl)
  attach-entered now mag mag0 ai handler be (inr (v, same)) =
      (rw same (attach-newcomer now mag ai handler be v), rw same refl)

  report-bulist : (h : Option ℕ) (c : Code) (mag : Mag A) → (report h c mag).bulist ≡ mag.bulist
  report-bulist none c mag = refl
  report-bulist (some i) c mag = refl

  report-routes : (h : Option ℕ) (c : Code) (mag : Mag A) → (report h c mag).routes ≡ mag.routes
  report-routes none c mag = refl
  report-routes (some i) c mag = refl

  pub report-receivers :
      (h : Option ℕ) (c : Code) (mag : Mag A) → (report h c mag).receivers ≡ mag.receivers
  report-receivers none c mag = refl
  report-receivers (some i) c mag = refl

  find-store : (be : BulistEntry A) (l : Bulist A) → find_by_id (store be l) be.mn_id ≡ some be
  find-store be l = rw (find-put be.mn_id be.mn_id be l.by_id, eq_refl be.mn_id) refl

  pub attached-entry :
      (mag : Mag A) (be : BulistEntry A) (handler : Option ℕ)
      → find_by_id (attached mag be handler).bulist be.mn_id ≡ some (requested be handler)
  unfolding ask binding_update
  attached-entry mag be handler =
      ap (λ l. find_by_id l be.mn_id) (report-bulist be.completion ec_canceled _)
      ∙ find-store (requested be handler) mag.bulist

  -- The acknowledgement that a requested entry waits for, once the routes of the entry are added.
  pub ack-completes :
      (k : Kernel A) (mag mag1 : Mag A) (pb : ProxyBindingInfo A) (be : BulistEntry A)
      → find_by_id mag.bulist pb.id ≡ some be
      → be.mn_id ≡ pb.id
      → be.lma_address ≡ pb.address
      → pb.status ≡ status_ok
      → pb.sequence ≡ be.sequence_number
      → 0 < pb.lifetime
      → be.bind_status ≡ bind_requested
      → add_route_entries k mag be ≡ done mag1
      → (mag' : Mag A) × (be' : BulistEntry A) × (delay : ℕ) × (proxy_binding_ack k mag pb
          ≡ done mag')
        × (find_by_id mag'.bulist pb.id ≡ some be')
        × (be'.bind_status ≡ bind_ack)
        × (be'.timer ≡ some (renews delay))
        × (delay < pb.lifetime)
        × (mag'.routes ≡ mag1.routes)
        × (mag'.reports ≡ (report be.completion ec_none mag1).reports)
  unfolding ack_entry ack_registration renew_delay ◌>>=◌
  ack-completes k mag mag1 pb be h named same status current positive asks added =
      let ok' : nat_beq pb.status status_ok ≡ true = ground (arith, status) in
      let asks' : is_requested be.bind_status ≡ true = ap is_requested asks in
      let runs : nat_beq pb.lifetime 0 ≡ false = ground (arith, positive) in
      let told = report be.completion ec_none mag1 in
      let be' : BulistEntry A = record be {
        bind_status = bind_ack;
        timer = some (renews (renew_delay pb.lifetime));
        completion = none;
      } in
      (
        record told { bulist = store be' told.bulist },
        be',
        renew_delay pb.lifetime,
        reached k mag pb be h same (ground (arith, status)) current
            ∙ rw (runs, asks', ack_entry, ok', ack_registration, added, ◌>>=◌) refl,
        subst (λ i. find_by_id (store be' told.bulist) i ≡ some be') named
            (find-store be' told.bulist),
        refl,
        refl,
        ground (arith, positive),
        report-routes be.completion ec_none mag1,
        refl,
      )

  pub attached-receivers :
      (mag : Mag A) (be : BulistEntry A) (handler : Option ℕ)
      → 0 < mag.receivers
      → 0 < (attached mag be handler).receivers
  unfolding ask
  attached-receivers mag be handler h =
      subst (λ n. 0 < n) (sym (report-receivers be.completion ec_canceled _)) h

  -- A datagram that parses is handled as the acknowledgement that it carries.
  pub receive-parsed :
      (k : Kernel A) (mag : Mag A) (endpoint : A) (rbytes : ℕ) (buffer : List ℕ)
      (pb : ProxyBindingInfo A)
      → 0 < mag.receivers
      → pba_parse endpoint rbytes buffer ≡ ok pb
      → mp_receive k mag endpoint rbytes buffer ≡ proxy_binding_ack k mag pb
  unfolding mp_receive
  receive-parsed k mag endpoint rbytes buffer pb listens e =
      let listens' : nat_beq mag.receivers 0 ≡ false = ground (arith, listens) in
      rw (mp_receive, listens', e) refl

  -- The call of the address configuration server that follows the routes of an entry.
  pub add_route_entries-calls :
      (k : Kernel A) (mag mag1 : Mag A) (be : BulistEntry A)
      → add_route_entries k mag be ≡ done mag1
      → mag1.addrconf
        ≡ advertises be.poa_dev_id be.poa_address be.mn_link_address be.mtu be.mn_prefix_list
            be.home_address mag.link_local_ip
          ∷ mag.addrconf
  unfolding add_route_entries
  add_route_entries-calls k mag mag1 be =
      (Ensures-bind (λ _. Unit {0}) Calls _ _ anything
          (λ r _.
            Ensures-bind (λ _. Unit {0}) Calls _ _ anything
              (λ t _.
                Ensures-bind (λ _. Unit {0}) Calls _ _ anything
                  (λ routes _. Ensures-done Calls _ refl)))).at
        mag1
    where
      Calls : Mag A → Type 0
      Calls x =
          x.addrconf
          ≡ advertises be.poa_dev_id be.poa_address be.mn_link_address be.mtu be.mn_prefix_list
              be.home_address mag.link_local_ip
            ∷ mag.addrconf

      anything : {B : Type 0} {n : Run B} → Ensures (λ _. Unit {0}) n
      anything = record { at = λ a e. tt }
