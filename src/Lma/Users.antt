-- ===== src/Lma/Users.antt =====
-- How many users a binding update gives to the tunnels.
use odi_mm.Base.{
  ◌<◌, ◌+◌, ◌-◌, ◌≡◌, refl, sym, Bool, true, false, none, some, arith, nat_beq, ◌==◌, eq_iff,
  nat_eq, list_eq, if◌then◌else◌,
}
use mathlib.Core.Path.{subst, subst₂}
use odi_mm.Run.{done, ◌>>=◌, Ensures, Ensures-done, Ensures-bind, Ensures-itself}
use odi_mm.Types.{ProxyBindingInfo, AddressOps, address_eq, status_ok, handoff_not_changed}
use odi_mm.Sequence.{validate_sequence_number}
use odi_mm.NodeDb
use odi_mm.NodeDb.{NodeDb, is_some}
use odi_mm.Tunnels
use odi_mm.Tunnels.{Tunnels, uint_mod}
use odi_mm.Tunnels.Counts.{count, IsCollectable, count-get, count-del, del-IsCollectable}
use odi_mm.Bcache.{BcacheEntry, lookup, bind_registered}
use odi_mm.Lma.State.{Lma, Kernel}
use odi_mm.Lma.{
  add_route_entries, del_route_entries, pbu_get_be, pbu_mag_checkin, register, deregister,
  bind_entry, process_entry, pbu_process, proxy_binding_update,
}

module _ {A : Type 0} ⦃ops : AddressOps A⦄ where
  -- One user more for one remote end.
  record Adds (t : Tunnels A) (remote : A) (t' : Tunnels A) : Type 0 where
    counts : (x : A) → count t' x ≡ (if remote == x then count t x + 1 else count t x)

  abbrev AddsTo : Tunnels A → A → Lma A → Type 0
  AddsTo t remote l = Adds t remote l.tunnels

  add_route_entries-Adds :
      (k : Kernel A) (lma : Lma A) (be : BcacheEntry A)
      → IsCollectable lma.tunnels
      → count lma.tunnels be.care_of_address + 1 < uint_mod
      → Ensures (AddsTo lma.tunnels be.care_of_address) (add_route_entries k lma be)
  unfolding add_route_entries
  add_route_entries-Adds k lma be v h =
      Ensures-bind (λ r. Tunnels.get k.open_tunnel lma.tunnels be.care_of_address ≡ done r) _ _ _
        (Ensures-itself (Tunnels.get k.open_tunnel lma.tunnels be.care_of_address))
        (λ r e.
          Ensures-bind (λ _. Unit {0}) _ _ _ (record { at = λ a h. tt })
            (λ s _. Ensures-done _ _ (record {
              counts =
                  λ x. (count-get k.open_tunnel lma.tunnels r.0 be.care_of_address x r.1 v h e).0;
            })))

  abbrev AddsFirst : Tunnels A → A → Lma A × BcacheEntry A → Type 0
  AddsFirst t remote r = Adds t remote r.0.tunnels

  register-Adds :
      (k : Kernel A) (lma : Lma A) (pb : ProxyBindingInfo A) (be : BcacheEntry A)
      → nat_beq pb.lifetime 0 ≡ false
      → IsCollectable lma.tunnels
      → count lma.tunnels be.care_of_address + 1 < uint_mod
      → Ensures (AddsFirst lma.tunnels be.care_of_address) (register k lma pb be)
  unfolding register
  register-Adds k lma pb be positive v h =
      rw (positive, register)
        (Ensures-bind (AddsTo lma.tunnels be.care_of_address)
          (AddsFirst lma.tunnels be.care_of_address) _ _
          (add_route_entries-Adds k lma (record be { timer = none; bind_status = bind_registered })
            v h)
          (λ l a. Ensures-done _ _ a))

  bind_entry-Adds :
      (k : Kernel A) (lma : Lma A) (pb : ProxyBindingInfo A) (be : BcacheEntry A)
      → nat_beq pb.lifetime 0 ≡ false
      → IsCollectable lma.tunnels
      → count lma.tunnels be.care_of_address + 1 < uint_mod
      → Ensures (AddsTo lma.tunnels be.care_of_address) (bind_entry k lma pb be)
  unfolding bind_entry deregister
  bind_entry-Adds k lma pb be positive v h =
      Ensures-bind (AddsFirst lma.tunnels be.care_of_address) _ _ _
        (register-Adds k lma pb be positive v h)
        (λ r a.
          Ensures-bind (λ _. Unit {0}) _ _ _ (record { at = λ b e. tt })
            (λ _ _.
              Ensures-bind (AddsFirst lma.tunnels be.care_of_address) _ _ _
                (rw (positive, deregister)
                  (Ensures-done (AddsFirst lma.tunnels be.care_of_address) r a))
                (λ q b. Ensures-done _ _ b)))

  abbrev Gives : Tunnels A → Lma A → Type 0
  Gives t l = l.tunnels ≡ t

  del_route_entries-Gives :
      (k : Kernel A) (lma : Lma A) (be : BcacheEntry A)
      → Ensures (Gives (Tunnels.del lma.tunnels be.care_of_address)) (del_route_entries k lma be)
  unfolding del_route_entries
  del_route_entries-Gives k lma be =
      Ensures-bind (λ _. Unit {0}) _ _ _ (record { at = λ a e. tt }) (λ r _. Ensures-done _ _ refl)

  -- A message that is checked in, with the tunnels at that point.
  record Passes (t : Tunnels A) (pb : ProxyBindingInfo A)
      (r : Lma A × ProxyBindingInfo A × BcacheEntry A × Bool) : Type 0 where
    accepted : r.3 ≡ true
    same : r.1 ≡ pb
    care_of_address : r.2.care_of_address ≡ pb.address
    tunnels : r.0.tunnels ≡ t

  abbrev AddsToFirst : Tunnels A → A → Lma A × ProxyBindingInfo A → Type 0
  AddsToFirst t remote r = Adds t remote r.0.tunnels

  process_entry-Adds :
      (k : Kernel A) (lma : Lma A) (pb : ProxyBindingInfo A) (be : BcacheEntry A) (t : Tunnels A)
      → Ensures (Passes t pb) (pbu_mag_checkin k lma be pb)
      → nat_beq pb.lifetime 0 ≡ false
      → IsCollectable t
      → count t pb.address + 1 < uint_mod
      → Ensures (AddsToFirst t pb.address) (process_entry k lma pb be)
  unfolding process_entry
  process_entry-Adds k lma pb be t passes positive v h =
      Ensures-bind (Passes t pb) _ _ _ passes finish
    where
      finish :
          (r : Lma A × ProxyBindingInfo A × BcacheEntry A × Bool)
          → Passes t pb r
          → Ensures (AddsToFirst t pb.address) (elim r.3 [
            | true ↦ bind_entry k r.0 r.1 r.2 >>= λ l. done (l, r.1)
            | false ↦ done (r.0, r.1)
          ])
      finish (l, p, b, false) a = absurd (cc a.accepted)
      finish (l, p, b, true) a =
          Ensures-bind (AddsTo t pb.address) _ _ _
            (subst₂ (λ u c. Ensures (AddsTo u c) (bind_entry k l p b)) a.tunnels a.care_of_address
              (bind_entry-Adds k l p b (rw (a.same) positive)
                (subst IsCollectable (sym a.tunnels) v) (rw (a.tunnels, a.care_of_address) h)))
            (λ m d. Ensures-done _ _ d)

  update-Adds :
      (k : Kernel A) (lma lma' : Lma A) (pb : ProxyBindingInfo A) (be : BcacheEntry A)
      (t : Tunnels A)
      → lookup lma.bcache pb.id ≡ some be
      → pb.status ≡ status_ok
      → Ensures (Passes t pb) (pbu_mag_checkin k lma be pb)
      → 0 < pb.lifetime
      → IsCollectable t
      → count t pb.address + 1 < uint_mod
      → proxy_binding_update k lma pb ≡ done lma'
      → Adds t pb.address lma'.tunnels
  unfolding proxy_binding_update pbu_process pbu_get_be
  update-Adds k lma lma' pb be t h ok passes positive v wraps e =
      let got : pbu_get_be lma pb ≡ (lma, pb, some be) = rw (h, pbu_get_be) refl in
      let whole : Ensures (AddsTo t pb.address) (proxy_binding_update k lma pb) =
        rw (ok, pbu_process, got, got)
          (Ensures-bind (AddsToFirst t pb.address) (AddsTo t pb.address) _ _
            (process_entry-Adds k lma pb be t passes (ground (arith, positive)) v wraps)
            (λ r a. Ensures-done _ _ a)) in
      whole.at lma' e

  -- A renewal of a binding from its own gateway, with a sequence number that follows and a positive
  -- lifetime, adds a user to the tunnel of the gateway and none to another tunnel, as long as the
  -- count does not wrap.
  pub renewal_leak :
      (k : Kernel A) (lma lma' : Lma A) (pb : ProxyBindingInfo A) (be : BcacheEntry A) (x : A)
      → lookup lma.bcache pb.id ≡ some be
      → be.care_of_address ≡ pb.address
      → validate_sequence_number be.sequence pb.sequence ≡ true
      → 0 < pb.lifetime
      → pb.status ≡ status_ok
      → IsCollectable lma.tunnels
      → count lma.tunnels pb.address + 1 < uint_mod
      → proxy_binding_update k lma pb ≡ done lma'
      → count lma'.tunnels x
        ≡ (if pb.address == x then count lma.tunnels x + 1 else count lma.tunnels x)
  unfolding pbu_mag_checkin
  renewal_leak k lma lma' pb be x h same fresh positive ok v wraps e =
      (update-Adds k lma lma' pb be lma.tunnels h ok
          (rw ((eq_iff be.care_of_address pb.address).1 same, fresh, pbu_mag_checkin)
            (Ensures-done (Passes lma.tunnels pb) _
              (record { accepted = refl; same = refl; care_of_address = same; tunnels = refl })))
          positive v wraps e).counts
        x

  -- A handoff, the registration of a binding from another gateway of the database than the one that
  -- holds it, takes one user from the tunnel to the old gateway, adds one to the tunnel to the new
  -- one, and leaves the other tunnels alone, as long as the new count does not wrap.
  pub handoff-count :
      (k : Kernel A) (lma lma' : Lma A) (pb : ProxyBindingInfo A) (be : BcacheEntry A) (x : A)
      → lookup lma.bcache pb.id ≡ some be
      → (be.care_of_address == pb.address) ≡ false
      → ops.is_unspecified be.care_of_address ≡ false
      → nat_beq pb.handoff handoff_not_changed ≡ false
      → is_some (NodeDb.find_router lma.node_db pb.address) ≡ true
      → 0 < pb.lifetime
      → pb.status ≡ status_ok
      → IsCollectable lma.tunnels
      → count lma.tunnels pb.address + 1 < uint_mod
      → proxy_binding_update k lma pb ≡ done lma'
      → count lma'.tunnels x ≡ (
          if pb.address == x
          then count lma.tunnels x + 1
          else if be.care_of_address == x
          then count lma.tunnels x - 1
          else count lma.tunnels x)
  unfolding pbu_mag_checkin
  handoff-count k lma lma' pb be x h other bound handoff known positive ok v wraps e =
      let t = Tunnels.del lma.tunnels be.care_of_address in
      let nonzero : nat_beq pb.lifetime 0 ≡ false = ground (arith, positive) in
      let passes : Ensures (Passes t pb) (pbu_mag_checkin k lma be pb) =
        rw (other, handoff, known, nonzero, bound, pbu_mag_checkin)
          (Ensures-bind (Gives t) (Passes t pb) _ _ (del_route_entries-Gives k lma be) (λ l same.
            Ensures-done _ _
              (record { accepted = refl; same = refl; care_of_address = refl; tunnels = same }))) in
      ground (
        arith,
        other,
        eq_iff be.care_of_address x,
        eq_iff pb.address x,
        eq_iff be.care_of_address pb.address,
        count-del lma.tunnels be.care_of_address x,
        (update-Adds k lma lma' pb be t h ok passes positive
              ((del-IsCollectable lma.tunnels be.care_of_address v).0)
              (rw (count-del lma.tunnels be.care_of_address pb.address, other) wraps) e).counts
            x,
      )
