-- ===== src/Lma/Accepts.antt =====
-- What an acknowledgement of success to a registration means.
use odi_mm.Base.{
  ℕ, ◌<◌, ◌≡◌, refl, sym, ap, ◌∙◌, inl, inr, Bool, true, false, not, List, Option, none, some,
  arith, put, find-put, nat_beq, ◌==◌, eq_iff, eq_refl, nat_eq, list_eq, if◌then◌else◌,
  Option-cases,
}
use mathlib.Core.Path.{subst}
use odi_mm.Run.{done, ◌>>=◌, Ensures, Ensures-done, Ensures-if, Ensures-bind}
use odi_mm.Types.{ProxyBindingInfo, AddressOps, address_eq, status_ok, handoff_not_changed}
use odi_mm.Sequence.{validate_sequence_number}
use odi_mm.NodeDb
use odi_mm.NodeDb.{NodeDb, MobileNode, RouterNode, is_some}
use odi_mm.Bcache.{Bcache, BcacheEntry, bind_registered, expires_in, lookup}
use odi_mm.Lma.State.{Lma, Kernel}
use odi_mm.Lma.{
  store, register_new, pbu_get_be, moved, pbu_mag_checkin, register, deregister, bind_entry,
  process_entry, pbu_process,
}
use odi_mm.Lma.Sound.{Gets, pbu_get_be-Gets, AllSound}
use odi_mm.Lma.CheckIn.{
  SameCache, add_route_entries-SameCache, del_route_entries-SameCache, not-false,
}

module _ {A : Type 0} ⦃ops : AddressOps A⦄ where
  -- The binding that a message asks for is in the cache, with a running lifetime.
  pub record IsBound (pb : ProxyBindingInfo A) (cache : Bcache A) : Type 0 where
    pub entry : BcacheEntry A
    pub found : lookup cache pb.id ≡ some entry
    pub care_of_address : entry.care_of_address ≡ pb.address
    pub lifetime : entry.lifetime ≡ pb.lifetime
    pub sequence : entry.sequence ≡ pb.sequence
    pub bind_status : entry.bind_status ≡ bind_registered
    pub timer : entry.timer ≡ some (expires_in pb.lifetime)

  -- An entry that carries what the message says.
  record Carries (pb : ProxyBindingInfo A) (be : BcacheEntry A) : Type 0 where
    care_of_address : be.care_of_address ≡ pb.address
    lifetime : be.lifetime ≡ pb.lifetime
    sequence : be.sequence ≡ pb.sequence

  record Admits (pb : ProxyBindingInfo A) (id : List ℕ)
      (r : Lma A × ProxyBindingInfo A × BcacheEntry A × Bool) : Type 0 where
    accepted : r.3 ≡ true → Carries pb r.2 × (r.1 ≡ pb) × (r.2.id ≡ id)
    refused : r.3 ≡ false → r.1.status ≡ status_ok → pb.lifetime ≡ 0

  refused-Admits :
      (lma : Lma A) (pb pb' : ProxyBindingInfo A) (be : BcacheEntry A) (id : List ℕ)
      → (pb'.status ≡ status_ok → pb.lifetime ≡ 0)
      → Ensures (Admits pb id) (done (lma, pb', be, false))
  refused-Admits lma pb pb' be id h =
      Ensures-done _ _ (record { accepted = λ e. absurd (cc e); refused = λ e s. h s })

  accepted-Admits :
      (lma : Lma A) (pb : ProxyBindingInfo A) (be be' : BcacheEntry A)
      → Carries pb be'
      → be'.id ≡ be.id
      → Ensures (Admits pb be.id) (done (lma, pb, be', true))
  accepted-Admits lma pb be be' c named =
      Ensures-done _ _ (record { accepted = λ e. (c, refl, named); refused = λ e s. absurd (cc e) })

  pbu_mag_checkin-Admits :
      (k : Kernel A) (lma : Lma A) (be : BcacheEntry A) (pb : ProxyBindingInfo A)
      → Ensures (Admits pb be.id) (pbu_mag_checkin k lma be pb)
  unfolding pbu_mag_checkin
  pbu_mag_checkin-Admits k lma be pb =
      let moves : Carries pb (moved be pb) = record {
        care_of_address = refl;
        lifetime = refl;
        sequence = refl;
      } in
      Ensures-if (Admits pb be.id) (not (be.care_of_address == pb.address)) _ _
        (λ _.
          Ensures-if (Admits pb be.id) (nat_beq pb.handoff handoff_not_changed) _ _
            (λ _. refused-Admits lma pb _ be _ (λ e. absurd (cc e)))
            (λ _.
              Ensures-if (Admits pb be.id)
                (not (is_some (NodeDb.find_router lma.node_db pb.address))) _ _
                (λ _. refused-Admits lma pb _ be _ (λ e. absurd (cc e)))
                (λ _.
                  Ensures-if (Admits pb be.id) (nat_beq pb.lifetime 0) _ _
                    (λ zero_. refused-Admits lma pb _ be _ (λ e. ground (arith, zero_)))
                    (λ _.
                      Ensures-if (Admits pb be.id) (ops.is_unspecified be.care_of_address) _ _
                        (λ _. accepted-Admits lma pb be _ moves refl)
                        (λ _.
                          Ensures-bind (SameCache lma) _ _ _ (del_route_entries-SameCache k lma be)
                            (λ lma' same. accepted-Admits lma' pb be _ moves refl))))))
        (λ stays.
          Ensures-if (Admits pb be.id) (not (validate_sequence_number be.sequence pb.sequence)) _ _
            (λ _. refused-Admits lma pb _ be _ (λ e. absurd (cc e)))
            (λ _.
              accepted-Admits lma pb be _
                (record {
                  care_of_address = (eq_iff be.care_of_address pb.address).0 (not-false _ stays);
                  lifetime = refl;
                  sequence = refl;
                })
                refl))

  abbrev bound : ProxyBindingInfo A → BcacheEntry A → BcacheEntry A
  bound pb be = record be { bind_status = bind_registered; timer = some (expires_in pb.lifetime) }

  abbrev Yields : BcacheEntry A → Lma A × BcacheEntry A → Type 0
  Yields be r = r.1 ≡ be

  register-bound :
      (k : Kernel A) (lma : Lma A) (pb : ProxyBindingInfo A) (be : BcacheEntry A)
      → nat_beq pb.lifetime 0 ≡ false
      → Ensures (Yields (bound pb be)) (register k lma pb be)
  unfolding register
  register-bound k lma pb be positive =
      rw (positive, register)
        (Ensures-bind (SameCache lma) (Yields (bound pb be)) _ _
          (add_route_entries-SameCache k lma _) (λ l _. Ensures-done _ _ refl))

  deregister-unchanged :
      (k : Kernel A) (lma : Lma A) (pb : ProxyBindingInfo A) (be : BcacheEntry A)
      → nat_beq pb.lifetime 0 ≡ false
      → Ensures (Yields be) (deregister k lma pb be)
  unfolding deregister
  deregister-unchanged k lma pb be positive =
      rw (positive, deregister) (Ensures-done (Yields be) _ refl)

  store-IsBound :
      (lma : Lma A) (pb : ProxyBindingInfo A) (be : BcacheEntry A)
      → Carries pb be
      → be.id ≡ pb.id
      → IsBound pb (store (bound pb be) lma).bcache
  store-IsBound lma pb be c named = record {
    entry = bound pb be;
    found =
        subst (λ i. lookup (put be.id (bound pb be) lma.bcache) i ≡ some (bound pb be)) named
          (rw (find-put be.id be.id (bound pb be) lma.bcache, eq_refl be.id) refl);
    care_of_address = c.care_of_address;
    lifetime = c.lifetime;
    sequence = c.sequence;
    bind_status = refl;
    timer = refl;
  }

  abbrev Binds : ProxyBindingInfo A → Lma A → Type 0
  Binds pb lma = IsBound pb lma.bcache

  -- A registration that was checked in ends with its binding.
  bind_entry-IsBound :
      (k : Kernel A) (lma : Lma A) (pb : ProxyBindingInfo A) (be : BcacheEntry A)
      → Carries pb be
      → be.id ≡ pb.id
      → nat_beq pb.lifetime 0 ≡ false
      → Ensures (Binds pb) (bind_entry k lma pb be)
  unfolding bind_entry
  bind_entry-IsBound k lma pb be c named positive =
      Ensures-bind (Yields (bound pb be)) _ _ _ (register-bound k lma pb be positive) (λ r e.
        Ensures-bind (λ _. Unit {0}) _ _ _ (record { at = λ a h. tt })
          (λ _ _.
            Ensures-bind (Yields r.1) _ _ _ (deregister-unchanged k r.0 pb r.1 positive) (λ q f.
              Ensures-done _ _ (
                subst (λ x. Binds pb (store x q.0)) (sym (f ∙ e))
                  (store-IsBound q.0 pb be c named)))))

  -- What an acknowledgement of success means: the binding, and that it repeats the message.
  abbrev Confirms : ProxyBindingInfo A → Lma A × ProxyBindingInfo A → Type 0
  Confirms pb r = r.1.status ≡ status_ok → IsBound pb r.0.bcache × (r.1 ≡ pb)

  process_entry-Confirms :
      (k : Kernel A) (lma : Lma A) (pb : ProxyBindingInfo A) (be : BcacheEntry A)
      → be.id ≡ pb.id
      → 0 < pb.lifetime
      → Ensures (Confirms pb) (process_entry k lma pb be)
  unfolding process_entry
  process_entry-Confirms k lma pb be named positive =
      Ensures-bind (Admits pb be.id) _ _ _ (pbu_mag_checkin-Admits k lma be pb) finish
    where
      finish :
          (r : Lma A × ProxyBindingInfo A × BcacheEntry A × Bool)
          → Admits pb be.id r
          → Ensures (Confirms pb) (elim r.3 [
            | true ↦ bind_entry k r.0 r.1 r.2 >>= λ l. done (l, r.1)
            | false ↦ done (r.0, r.1)
          ])
      finish (l, p, b, false) a =
          Ensures-done _ _ (λ s. absurd (omega (arith, a.refused refl s, positive)))
      finish (l, p, b, true) a =
          let (c, same, kept) = a.accepted refl in
          Ensures-bind (Binds pb) _ _ _
            (subst (λ x. Ensures (Binds pb) (bind_entry k l x b)) (sym same)
              (bind_entry-IsBound k l pb b c (kept ∙ named) (ground (arith, positive))))
            (λ m h. Ensures-done _ _ (λ _. (h, same)))

  -- The entry is found or made only for the message as it came; a message without an entry is
  -- refused, or asks for a lifetime of zero.
  record Found (pb : ProxyBindingInfo A) (r : Lma A × ProxyBindingInfo A × Option (BcacheEntry A))
      : Type 0 where
    some_case : (be : BcacheEntry A) → r.2 ≡ some be → r.1 ≡ pb
    none_case : r.2 ≡ none → r.1.status ≡ status_ok → pb.lifetime ≡ 0

  Found-none :
      (lma : Lma A) (pb pb' : ProxyBindingInfo A)
      → (pb'.status ≡ status_ok → pb.lifetime ≡ 0)
      → Found pb (lma, pb', none)
  Found-none lma pb pb' h = record { some_case = λ be e. absurd (cc e); none_case = λ e s. h s }

  Found-if :
      (pb : ProxyBindingInfo A) (b : Bool)
      (x y : Lma A × ProxyBindingInfo A × Option (BcacheEntry A))
      → (b ≡ true → Found pb x)
      → (b ≡ false → Found pb y)
      → Found pb (if b then x else y)
  Found-if pb true x y gx gy = gx refl
  Found-if pb false x y gx gy = gy refl

  register_new-Found :
      (lma : Lma A) (pb : ProxyBindingInfo A) (mn : MobileNode A)
      → Found pb (register_new lma pb mn)
  unfolding register_new
  register_new-Found lma pb mn =
      Found-if pb (not (mn.lma_id == lma.identifier)) _ _
        (λ _. Found-none lma pb _ (λ e. absurd (cc e)))
        (λ _.
          Found-if pb (nat_beq pb.lifetime 0) _ _
            (λ zero_. Found-none lma pb pb (λ e. ground (arith, zero_)))
            (λ _. record { some_case = λ be e. refl; none_case = λ e s. absurd (cc e) }))

  pbu_get_be-Found : (lma : Lma A) (pb : ProxyBindingInfo A) → Found pb (pbu_get_be lma pb)
  unfolding pbu_get_be
  pbu_get_be-Found lma pb = elim (Option-cases (lookup lma.bcache pb.id)) [
    | inr (be, h) ↦
        rw (h, pbu_get_be) (record { some_case = λ x e. refl; none_case = λ e s. absurd (cc e) })
    | inl h ↦ elim (Option-cases (NodeDb.find_mobile_node lma.node_db pb.id)) [
      | inl n ↦
          rw (h, n, pbu_get_be)
            (Found-if pb (not (is_some (NodeDb.find_router lma.node_db pb.address))) _ _
              (λ _. Found-none lma pb _ (λ e. absurd (cc e)))
              (λ _. Found-none lma pb _ (λ e. absurd (cc e))))
      | inr (mn, n) ↦
          rw (h, n, pbu_get_be)
            (Found-if pb (not (is_some (NodeDb.find_router lma.node_db pb.address))) _ _
              (λ _. Found-none lma pb _ (λ e. absurd (cc e))) (λ _. register_new-Found lma pb mn))
    ]
  ]

  pbu_process-Confirms :
      (k : Kernel A) (lma : Lma A) (pb : ProxyBindingInfo A)
      → AllSound lma.node_db lma.bcache
      → 0 < pb.lifetime
      → Ensures (Confirms pb) (pbu_process k lma pb)
  unfolding pbu_process
  pbu_process-Confirms k lma pb v positive =
      finish (pbu_get_be lma pb) (pbu_get_be-Found lma pb) (pbu_get_be-Gets lma pb v)
    where
      finish :
          (r : Lma A × ProxyBindingInfo A × Option (BcacheEntry A))
          → Found pb r
          → Gets lma r
          → Ensures
              (Confirms pb)
              (elim r.2 [ none ↦ done (r.0, r.1) | some be ↦ process_entry k r.0 r.1 be ])
      finish (l, p, none) f g =
          Ensures-done _ _ (λ s. absurd (omega (arith, f.none_case refl s, positive)))
      finish (l, p, some be) f g =
          let same = f.some_case be refl in
          subst (λ x. Ensures (Confirms pb) (process_entry k l x be)) (sym same)
            (process_entry-Confirms k l pb be ((g.entry be refl).owned.named ∙ ap (λ x. x.id) same)
              positive)

  -- If the processing of a registration, a binding update with a positive lifetime, leaves the
  -- status of the acknowledgement at success in a sound state, then the cache holds, under the
  -- mobile node's identifier, a registered entry with the sender as its care-of address and the
  -- lifetime and sequence number of the message, whose timer runs for that lifetime.
  pub pbu_process-IsBound :
      (k : Kernel A) (lma lma' : Lma A) (pb pb' : ProxyBindingInfo A)
      → AllSound lma.node_db lma.bcache
      → 0 < pb.lifetime
      → pbu_process k lma pb ≡ done (lma', pb')
      → pb'.status ≡ status_ok
      → IsBound pb lma'.bcache
  pbu_process-IsBound k lma lma' pb pb' v positive h ok =
      ((pbu_process-Confirms k lma pb v positive).at (lma', pb') h ok).0

  -- The acknowledgement of success to a registration is the message that it answers.
  pub pbu_process-kept :
      (k : Kernel A) (lma lma' : Lma A) (pb pb' : ProxyBindingInfo A)
      → AllSound lma.node_db lma.bcache
      → 0 < pb.lifetime
      → pbu_process k lma pb ≡ done (lma', pb')
      → pb'.status ≡ status_ok
      → pb' ≡ pb
  pbu_process-kept k lma lma' pb pb' v positive h ok =
      ((pbu_process-Confirms k lma pb v positive).at (lma', pb') h ok).1
