-- ===== src/Lma/Sound.antt =====
-- The binding cache between two handlers of the anchor: what each entry holds, whatever the peers
-- send, the timers do and the kernel answers.
use odi_mm.Base.{
  ℕ, ◌<◌, ◌≡◌, refl, ap, ◌∙◌, inl, inr, Bool, true, false, not, ◌||◌, List, Option, none, some,
  arith, put, erase, find-put_cases, find-erase-some, nat_beq, ◌==◌, eq_iff, nat_eq, list_eq,
  if◌then◌else◌, Option-cases,
}
use mathlib.Core.Path.{subst, subst₂}
use odi_mm.Routes.Lookup.{or_else}
use odi_mm.Types.{Prefix, ProxyBindingInfo, AddressOps, address_eq}
use odi_mm.NodeDb
use odi_mm.NodeDb.{NodeDb, RouterNode, MobileNode, is_some}
use odi_mm.Bcache.{
  Bcache, BcacheEntry, bind_registered, bind_deregistered, expires_in, removes_in, bcache_entry,
  insert, lookup,
}
use odi_mm.Lma.State.{Lma, min_delay_before_bce_delete}
use odi_mm.Lma.{register_new, pbu_get_be}

module _ {A : Type 0} ⦃ops : AddressOps A⦄ where
  -- The care-of address is that of a router in the database, or the unspecified address.
  abbrev pub is_authorized : NodeDb A → A → Bool
  is_authorized db a = is_some (NodeDb.find_router db a) || a == ops.any

  abbrev pub prefixes_of : Option (MobileNode A) → Option (List Prefix)
  prefixes_of none = none
  prefixes_of (some mn) = some mn.prefix_list

  -- The mobile node of an entry is in the database, with the entry's prefixes.
  pub record IsOwned (db : NodeDb A) (id : List ℕ) (be : BcacheEntry A) : Type 0 where
    pub named : be.id ≡ id
    pub known : prefixes_of (NodeDb.find_mobile_node db id) ≡ some be.prefix_list
    pub authorized : is_authorized db be.care_of_address ≡ true

  pub record IsSound (db : NodeDb A) (id : List ℕ) (be : BcacheEntry A) : Type 0 where
    pub owned : IsOwned db id be
    pub registered :
        be.bind_status ≡ bind_registered
        → (0 < be.lifetime) × (be.timer ≡ some (expires_in be.lifetime))
    pub deregistered :
        be.bind_status ≡ bind_deregistered
        → be.timer ≡ some (removes_in min_delay_before_bce_delete)

  pub record AllSound (db : NodeDb A) (cache : Bcache A) : Type 0 where
    pub at : (id : List ℕ) (be : BcacheEntry A) → lookup cache id ≡ some be → IsSound db id be

  pub AllSound-put :
      (db : NodeDb A) (cache : Bcache A) (id : List ℕ) (be : BcacheEntry A)
      → AllSound db cache
      → IsSound db id be
      → AllSound db (put id be cache)
  AllSound-put db cache id be v s = record {
    at = λ j x h. elim (find-put_cases id j be x cache h) [
      | inl (same, now) ↦ subst₂ (IsSound db) same now s
      | inr before ↦ v.at j x before
    ];
  }

  pub AllSound-erase :
      (db : NodeDb A) (cache : Bcache A) (id : List ℕ)
      → AllSound db cache
      → AllSound db (erase id cache)
  AllSound-erase db cache id v = record { at = λ j x h. v.at j x (find-erase-some id j x cache h) }

  -- A new entry comes from the database, and has no care-of address yet.
  bcache_entry-IsSound :
      (db : NodeDb A) (id : List ℕ) (mn : MobileNode A)
      → NodeDb.find_mobile_node db id ≡ some mn
      → IsSound db id (bcache_entry id mn.prefix_list)
  unfolding bcache_entry
  bcache_entry-IsSound db id mn known = record {
    owned = record {
      named = refl;
      known = rw known refl;
      authorized = ground (arith, eq_iff ops.any ops.any);
    };
    registered = λ e. cc;
    deregistered = λ e. cc;
  }

  abbrev cache_of : Lma A × ProxyBindingInfo A × Option (BcacheEntry A) → Bcache A
  cache_of r = r.0.bcache

  -- What pbu_get_be does to the cache, and which entry it returns.
  pub record Gets (lma : Lma A) (r : Lma A × ProxyBindingInfo A × Option (BcacheEntry A))
      : Type 0 where
    pub sound : AllSound lma.node_db r.0.bcache
    pub same_db : r.0.node_db ≡ lma.node_db
    pub entry : (be : BcacheEntry A) → r.2 ≡ some be → IsSound lma.node_db r.1.id be

  Gets-none :
      (lma : Lma A) (pb' : ProxyBindingInfo A)
      → AllSound lma.node_db lma.bcache
      → Gets lma (lma, pb', none)
  Gets-none lma pb' v = record { sound = v; same_db = refl; entry = λ be e. cc }

  Gets-if :
      (lma : Lma A) (b : Bool) (x y : Lma A × ProxyBindingInfo A × Option (BcacheEntry A))
      → Gets lma x
      → Gets lma y
      → Gets lma (if b then x else y)
  Gets-if lma true x y gx gy = gx
  Gets-if lma false x y gx gy = gy

  register_new-Gets :
      (lma : Lma A) (pb : ProxyBindingInfo A) (mn : MobileNode A)
      → AllSound lma.node_db lma.bcache
      → lookup lma.bcache pb.id ≡ none
      → NodeDb.find_mobile_node lma.node_db pb.id ≡ some mn
      → Gets lma (register_new lma pb mn)
  unfolding register_new insert bcache_entry
  register_new-Gets lma pb mn v absent known =
      let be : BcacheEntry A = bcache_entry pb.id mn.prefix_list in
      let s = bcache_entry-IsSound lma.node_db pb.id mn known in
      let id_of : be.id ≡ pb.id = refl in
      Gets-if lma (not (mn.lma_id == lma.identifier)) _ _ (Gets-none lma _ v) (
        Gets-if lma (nat_beq pb.lifetime 0) _ _ (Gets-none lma pb v) (
          rw (id_of, absent, insert)
            (record {
              sound = AllSound-put lma.node_db lma.bcache pb.id be v s;
              same_db = refl;
              entry = λ x e. subst (IsSound lma.node_db pb.id) (ap (λ o. or_else o x) e) s;
            })))

  pub pbu_get_be-Gets :
      (lma : Lma A) (pb : ProxyBindingInfo A)
      → AllSound lma.node_db lma.bcache
      → Gets lma (pbu_get_be lma pb)
  unfolding pbu_get_be
  pbu_get_be-Gets lma pb v = elim (Option-cases (lookup lma.bcache pb.id)) [
    | inr (be, h) ↦
        rw (h, pbu_get_be)
          (record { sound = v; same_db = refl; entry = λ x e. v.at pb.id x (h ∙ e) })
    | inl h ↦ elim (Option-cases (NodeDb.find_mobile_node lma.node_db pb.id)) [
      | inl n ↦ rw (h, n, pbu_get_be) (Gets-if lma _ _ _ (Gets-none lma _ v) (Gets-none lma _ v))
      | inr (mn, n) ↦
          rw (h, n, pbu_get_be)
            (Gets-if lma _ _ _ (Gets-none lma _ v) (register_new-Gets lma pb mn v h n))
    ]
  ]
