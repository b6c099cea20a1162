-- ===== src/Mag/Acks.antt =====
-- What the gateway makes of a binding acknowledgement, and of an attachment that its list refuses.
use odi_mm.Base.{
  ℕ, ◌<◌, ◌≡◌, refl, ap, ◌∙◌, ◌⊎◌, inl, inr, Bool, true, false, ◌∷◌, Option, none, some, arith, put,
  find, find-put, nat_beq, ◌==◌, eq_iff, eq_refl, nat_eq, list_eq, if◌then◌else◌, Bool-cases,
}
use mathlib.Core.Path.{subst}
use odi_mm.Run.{done, undefined, ◌>>=◌}
use odi_mm.Types.{
  ProxyBindingInfo, AddressOps, address_eq, status_bad_sequence, status_ok, handoff_unknown,
}
use odi_mm.Sequence.{validate_sequence_number}
use odi_mm.NodeDb
use odi_mm.NodeDb.{NodeDb, MobileNode, RouterNode, is_some}
use odi_mm.Bulist.{
  BulistEntry, bind_ack, bind_detach, bind_renewing, renews, store, find_by_id, bulist_entry,
  insert,
}
use odi_mm.Lma.State.{Kernel}
use odi_mm.Mag.State.{
  Mag, Code, ec_none, ec_not_authorized, ec_unknown_lma, ec_invalid_state, ec_canceled, ec_timeout,
  ec_status, renew_delay, AttachInfo, is_detach, is_requested, is_renewing,
}
use odi_mm.Mag.{
  ack_entry, ack_deregistration, ack_registration, binding_update, proxy_binding_ack,
  ack_bad_sequence, mobile_node_attach_, attach_new,
}

abbrev pub is_success : Code → Bool
is_success ec_none = true
is_success ec_not_authorized = false
is_success ec_unknown_lma = false
is_success ec_invalid_state = false
is_success ec_canceled = false
is_success ec_timeout = false
is_success (ec_status status) = nat_beq status 0

module _ {A : Type 0} ⦃ops : AddressOps A⦄ where
  -- An acknowledgement that does not come from the anchor of the entry, or that has neither the
  -- sequence number of the last update nor the status for a bad one, changes nothing.
  stray_ack-ignored :
      (k : Kernel A) (mag : Mag A) (pb : ProxyBindingInfo A) (be : BulistEntry A)
      → find_by_id mag.bulist pb.id ≡ some be
      → ((be.lma_address == pb.address) ≡ false)
        ⊎ ((nat_beq pb.sequence be.sequence_number ≡ false)
            × (nat_beq pb.status status_bad_sequence ≡ false))
      → proxy_binding_ack k mag pb ≡ done mag
  unfolding proxy_binding_ack
  stray_ack-ignored k mag pb be h (inl other) = rw (h, other, proxy_binding_ack) refl
  stray_ack-ignored k mag pb be h (inr (stale, status)) =
      elim (Bool-cases (be.lma_address == pb.address)) [
        | inl same ↦ rw (h, same, status, stale, proxy_binding_ack) refl
        | inr other ↦ rw (h, other, proxy_binding_ack) refl
      ]

  -- The anchor's answer to a bad sequence number makes the gateway send an update at once, for the
  -- same mobile node and to the same anchor, whose sequence number follows the one in the answer.
  pub bad_sequence-recovers :
      (k : Kernel A) (mag : Mag A) (pb : ProxyBindingInfo A) (be : BulistEntry A)
      → find_by_id mag.bulist pb.id ≡ some be
      → be.lma_address ≡ pb.address
      → pb.status ≡ status_bad_sequence
      → pb.sequence < 65536
      → (mag' : Mag A) × (again : ProxyBindingInfo A) × (proxy_binding_ack k mag pb ≡ done mag')
        × (mag'.sent ≡ again ∷ mag.sent)
        × (again.id ≡ be.mn_id)
        × (again.address ≡ pb.address)
        × (validate_sequence_number pb.sequence again.sequence ≡ true)
  unfolding proxy_binding_ack ack_bad_sequence binding_update validate_sequence_number
  bad_sequence-recovers k mag pb be h same status short =
      let same' : (be.lma_address == pb.address) ≡ true =
        (eq_iff be.lma_address pb.address).1 same in
      (
        ack_bad_sequence mag be pb,
        binding_update (record be { sequence_number = pb.sequence })
            (if is_detach be.bind_status then 0 else be.lifetime) handoff_unknown,
        rw (h, same', status, proxy_binding_ack) refl,
        refl,
        refl,
        same,
        ground arith,
      )

  -- A node that attaches with the link address of another node of the list is not inserted, and the
  -- gateway goes on with the entry that the list has deleted.
  pub taken_link_address :
      (now : ℕ) (mag : Mag A) (ai : AttachInfo) (handler : Option ℕ) (mn : MobileNode A)
      (lma : RouterNode A)
      → find_by_id mag.bulist ai.mn_id ≡ none
      → NodeDb.find_mobile_node mag.node_db ai.mn_id ≡ some mn
      → NodeDb.find_router_by_id mag.node_db mn.lma_id ≡ some lma
      → is_some (find ai.mn_address mag.bulist.by_link) ≡ true
      → mobile_node_attach_ now mag ai handler ≡ undefined
  unfolding mobile_node_attach_ attach_new insert bulist_entry
  taken_link_address now mag ai handler mn lma absent known anchor taken =
      elim (Bool-cases (is_some (find mn.id mag.bulist.by_id))) [
        | inl e ↦ rw (absent, known, anchor, mobile_node_attach_, taken, e, attach_new) refl
        | inr e ↦ rw (absent, known, anchor, mobile_node_attach_, taken, e, attach_new) refl
      ]

  pub reached :
      (k : Kernel A) (mag : Mag A) (pb : ProxyBindingInfo A) (be : BulistEntry A)
      → find_by_id mag.bulist pb.id ≡ some be
      → be.lma_address ≡ pb.address
      → nat_beq pb.status status_bad_sequence ≡ false
      → pb.sequence ≡ be.sequence_number
      → proxy_binding_ack k mag pb ≡ ack_entry k mag be pb
  unfolding proxy_binding_ack
  reached k mag pb be h same status current =
      let same' : (be.lma_address == pb.address) ≡ true =
        (eq_iff be.lma_address pb.address).1 same in
      let current' : nat_beq pb.sequence be.sequence_number ≡ true = ground (arith, current) in
      rw (h, same', status, current', proxy_binding_ack) refl

  -- Whatever status the acknowledgement of a de-registration has, other than the one for a bad
  -- sequence number, the entry's handler is told of a success.
  pub deregistration_hides_errors :
      (k : Kernel A) (mag : Mag A) (pb : ProxyBindingInfo A) (be : BulistEntry A) (handler : ℕ)
      → find_by_id mag.bulist pb.id ≡ some be
      → be.lma_address ≡ pb.address
      → nat_beq pb.status status_bad_sequence ≡ false
      → pb.sequence ≡ be.sequence_number
      → pb.lifetime ≡ 0
      → be.bind_status ≡ bind_detach
      → be.completion ≡ some handler
      → (mag' : Mag A) × (code : Code) × (proxy_binding_ack k mag pb ≡ done mag')
        × (mag'.reports ≡ (handler, code) ∷ mag.reports)
        × (is_success code ≡ true)
  unfolding proxy_binding_ack ack_entry ack_deregistration
  deregistration_hides_errors k mag pb be handler h same status current over leaves waits =
      let over' : nat_beq pb.lifetime 0 ≡ true = ground (arith, over) in
      let leaves' : is_detach be.bind_status ≡ true = ap is_detach leaves in
      let code = if nat_beq pb.status 0 then ec_status pb.status else ec_none in
      (
        ack_deregistration mag be pb,
        code,
        reached k mag pb be h same status current ∙ rw (over', leaves', ack_entry) refl,
        rw (waits, ack_deregistration) refl,
        elim (Bool-cases (nat_beq pb.status 0)) [
          | inl zero_ ↦ rw zero_ zero_
          | inr nonzero ↦ rw nonzero refl
        ],
      )

  -- The acknowledgement of a renewal leaves the entry acknowledged, with a timer that starts the
  -- next renewal before the lifetime that the anchor gave is over, and reports nothing.
  pub renewal-timer :
      (k : Kernel A) (mag : Mag A) (pb : ProxyBindingInfo A) (be : BulistEntry A)
      → find_by_id mag.bulist pb.id ≡ some be
      → be.mn_id ≡ pb.id
      → be.lma_address ≡ pb.address
      → pb.status ≡ status_ok
      → pb.sequence ≡ be.sequence_number
      → 0 < pb.lifetime
      → be.bind_status ≡ bind_renewing
      → (mag' : Mag A) × (be' : BulistEntry A) × (delay : ℕ) × (proxy_binding_ack k mag pb
          ≡ done mag')
        × (find_by_id mag'.bulist pb.id ≡ some be')
        × (be'.bind_status ≡ bind_ack)
        × (be'.timer ≡ some (renews delay))
        × (delay < pb.lifetime)
        × (mag'.reports ≡ mag.reports)
  unfolding proxy_binding_ack ack_entry ack_registration renew_delay ◌>>=◌
  renewal-timer k mag pb be h named same status current positive renews_ =
      let ok' : nat_beq pb.status status_ok ≡ true = ground (arith, status) in
      let plain : is_requested be.bind_status ≡ false = ap is_requested renews_ in
      let renews' : is_renewing be.bind_status ≡ true = ap is_renewing renews_ in
      let runs : nat_beq pb.lifetime 0 ≡ false = ground (arith, positive) in
      let be' : BulistEntry A = record be {
        bind_status = bind_ack;
        timer = some (renews (renew_delay pb.lifetime));
      } in
      (
        record mag { bulist = store be' mag.bulist },
        be',
        renew_delay pb.lifetime,
        reached k mag pb be h same (ground (arith, status)) current
            ∙ rw (runs, plain, renews', ack_entry, ok', ack_registration) refl,
        subst (λ i. find i (put be.mn_id be' mag.bulist.by_id) ≡ some be') named
            (rw (find-put be.mn_id be.mn_id be' mag.bulist.by_id, eq_refl be.mn_id) refl),
        refl,
        refl,
        ground (arith, positive),
        refl,
      )
