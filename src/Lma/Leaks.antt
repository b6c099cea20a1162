-- ===== src/Lma/Leaks.antt =====
-- What the anchor loses: receives that are not started again, the routes of a binding that ends by
-- its timers, and the entry that a refused first registration leaves.
use odi_mm.NodeDb
use odi_mm.NodeDb.{MobileNode, is_some}
use odi_mm.Types.{
  ProxyBindingInfo, address_eq, status_ok, status_not_authorized_for_proxy_reg, handoff_not_changed,
  AddressOps,
}
use odi_mm.Bcache.{bcache_entry, insert, BcacheEntry, bind_registered, lookup, remove}
use odi_mm.Lma.State.{Lma, Kernel, Event, receives}
use odi_mm.Lma.{
  proxy_binding_update, pbu_process, pbu_get_be, register_new, process_entry, pbu_mag_checkin,
  expired_entry, remove_entry, mp_receive, step, run, store,
}
use odi_mm.Base.{
  ◌<◌, ◌==◌, nat_beq, none, some, put, ℕ, ◌-◌, ◌≡◌, refl, sym, ap, ◌∙◌, true, false, List, [], ◌∷◌,
  arith, find, find-put, eq_refl, nat_eq, list_eq, length, erase, find-erase, All,
}
use mathlib.Core.Path.{subst}
use odi_mm.Run.{done, ◌>>=◌}
use odi_mm.Wire.Message.{refused}
use odi_mm.Wire.Receiver.{pbu_parse}
use odi_mm.Lma.Invariant.{lapsed}

-- A datagram with the answers of the kernel during its handler.
pub record Arrival (A : Type 0) : Type 0 where
  pub kernel : Kernel A
  pub endpoint : A
  pub rbytes : ℕ
  pub buffer : List ℕ

abbrev arrives : {A : Type 0} → Arrival A → Kernel A × Event A
arrives a = (a.kernel, receives a.endpoint a.rbytes a.buffer)

abbrev pub arrivals : {A : Type 0} → List (Arrival A) → List (Arrival A) → List (Kernel A × Event A)
arrivals [] [] = []
arrivals [] (a ∷ rest) = arrives a ∷ arrivals [] rest
arrivals (b ∷ bs) later = arrives b ∷ arrivals bs later

module _ {A : Type 0} ⦃ops : AddressOps A⦄ where
  abbrev pub IsMalformed : Arrival A → Type 0
  IsMalformed a = pbu_parse a.endpoint a.rbytes a.buffer ≡ refused

  drops :
      (k : Kernel A) (lma : Lma A) (endpoint : A) (rbytes : ℕ) (buffer : List ℕ)
      → nat_beq lma.receivers 0 ≡ false
      → pbu_parse endpoint rbytes buffer ≡ refused
      → mp_receive k lma endpoint rbytes buffer
        ≡ done (record lma { receivers = lma.receivers - 1 })
  unfolding mp_receive
  drops k lma endpoint rbytes buffer pending bad = rw (pending, bad, mp_receive) refl

  ignores :
      (k : Kernel A) (lma : Lma A) (endpoint : A) (rbytes : ℕ) (buffer : List ℕ)
      → nat_beq lma.receivers 0 ≡ true
      → mp_receive k lma endpoint rbytes buffer ≡ done lma
  unfolding mp_receive
  ignores k lma endpoint rbytes buffer closed = rw (closed, mp_receive) refl

  deaf :
      (lma : Lma A) (later : List (Arrival A))
      → nat_beq lma.receivers 0 ≡ true
      → run lma (arrivals [] later) ≡ done lma
  unfolding run step ◌>>=◌
  deaf lma [] closed = refl
  deaf lma (a ∷ rest) closed =
      ap (λ m. m >>= λ l. run l (arrivals [] rest))
        (ignores a.kernel lma a.endpoint a.rbytes a.buffer closed)
      ∙ deaf lma rest closed

  -- After as many malformed datagrams as receives were started, the anchor ignores every later
  -- datagram: nothing of it changes but the number of pending receives, which is zero.
  pub malformed_deafen :
      (lma : Lma A) (bad later : List (Arrival A))
      → All IsMalformed bad
      → length bad ≡ lma.receivers
      → run lma (arrivals bad later) ≡ done (record lma { receivers = 0 })
  unfolding run step mp_receive ◌>>=◌
  malformed_deafen lma [] later m n =
      deaf lma later (ground (arith, n)) ∙ ap (λ r. done (record lma { receivers = r })) (sym n)
  malformed_deafen lma (b ∷ bs) later (mb, ms) n =
      let lma' : Lma A = record lma { receivers = lma.receivers - 1 } in
      let first = drops b.kernel lma b.endpoint b.rbytes b.buffer (ground (arith, n)) mb in
      let rest = malformed_deafen lma' bs later ms (omega (arith, n)) in
      ap (λ m. m >>= λ l. run l (arrivals bs later)) first ∙ rest

  -- A registered binding that expires and is then removed leaves the cache, while its routes and
  -- its use of the tunnel stay.
  expired_leak :
      (lma : Lma A) (id : List ℕ) (be : BcacheEntry A)
      → lookup lma.bcache id ≡ some be
      → be.id ≡ id
      → be.bind_status ≡ bind_registered
      → let after = remove_entry (expired_entry lma false id) false id in
        (lookup after.bcache id ≡ none)
        × (after.routes ≡ lma.routes)
        × (after.tunnels ≡ lma.tunnels)
  unfolding expired_entry remove_entry remove
  expired_leak lma id be h named status =
      let x = lapsed be in
      let found : lookup (put be.id x lma.bcache) id ≡ some x =
        subst (λ i. lookup (put be.id x lma.bcache) i ≡ some x) named
          (rw (find-put be.id be.id x lma.bcache, eq_refl be.id) refl) in
      let expired : expired_entry lma false id ≡ store x lma = rw (h, status, expired_entry) refl in
      let removed : remove_entry (store x lma) false id
          ≡ record lma { bcache = erase be.id (put be.id x lma.bcache) } =
        rw (found, remove_entry) refl in
      let gone : find id (erase be.id (put be.id x lma.bcache)) ≡ none =
        subst (λ i. find i (erase be.id (put be.id x lma.bcache)) ≡ none) named
          (rw (find-erase be.id be.id (put be.id x lma.bcache), eq_refl be.id) refl) in
      subst
        (λ after.
          (lookup after.bcache id ≡ none)
          × (after.routes ≡ lma.routes)
          × (after.tunnels ≡ lma.tunnels))
        (sym (ap (λ l. remove_entry l false id) expired ∙ removed)) (gone, refl, refl)

  -- A first registration from a gateway of the database for a node of this anchor, with a positive
  -- lifetime and the handoff indicator "not changed", is refused with status 154, but leaves a new
  -- entry in the cache, with an unknown status and no timer that would remove it.
  pub refused_entry_stays :
      (k : Kernel A) (lma : Lma A) (pb : ProxyBindingInfo A) (mn : MobileNode A)
      → lookup lma.bcache pb.id ≡ none
      → is_some (NodeDb.find_router lma.node_db pb.address) ≡ true
      → NodeDb.find_mobile_node lma.node_db pb.id ≡ some mn
      → (mn.lma_id == lma.identifier) ≡ true
      → (ops.any == pb.address) ≡ false
      → 0 < pb.lifetime
      → pb.handoff ≡ handoff_not_changed
      → pb.status ≡ status_ok
      → proxy_binding_update k lma pb
        ≡ done (record lma {
          bcache = put pb.id (bcache_entry pb.id mn.prefix_list) lma.bcache;
          sent = record pb { status = status_not_authorized_for_proxy_reg } ∷ lma.sent;
        })
  unfolding proxy_binding_update pbu_process pbu_get_be register_new insert bcache_entry
      process_entry pbu_mag_checkin ◌>>=◌
  refused_entry_stays k lma pb mn absent known node mine other positive handoff fresh =
      let runs : nat_beq pb.lifetime 0 ≡ false = ground (arith, positive) in
      let still : nat_beq pb.handoff handoff_not_changed ≡ true = ground (arith, handoff) in
      let be : BcacheEntry A = bcache_entry pb.id mn.prefix_list in
      let lma' : Lma A = record lma { bcache = put pb.id be lma.bcache } in
      let added : insert lma.bcache be ≡ (put pb.id be lma.bcache, true) =
        rw (absent, insert) refl in
      let made : register_new lma pb mn ≡ (lma', pb, some be) =
        rw (mine, runs, added, register_new) refl in
      let got : pbu_get_be lma pb ≡ (lma', pb, some be) =
        rw (absent, known, node, pbu_get_be, made) refl in
      let checked : pbu_mag_checkin k lma' be pb
          ≡ done (lma', record pb { status = status_not_authorized_for_proxy_reg }, be, false) =
        rw (other, still, pbu_mag_checkin) refl in
      rw (fresh, pbu_process, got, got, process_entry, checked) refl
