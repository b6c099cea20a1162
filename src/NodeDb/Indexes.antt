-- ===== src/NodeDb/Indexes.antt =====
-- The two indexes of a node database agree, and a refused insertion leaves no trace.
use odi_mm.Base.{
  ℕ, ◌≡◌, refl, ◌∙◌, inl, inr, Bool, true, false, ◌||◌, List, [], ◌∷◌, none, some, arith, Assoc,
  find, put, erase, find-put, find-erase, ◌==◌, eq_iff, list_eq, nat_eq, list_beq, list_beq_iff,
  if◌then◌else◌, Option-cases,
}
use odi_mm.Types.{AddressOps, address_eq}
use odi_mm.NodeDb.{
  NodeDb, RouterNode, MobileNode, find_router_by_id, find_router, find_mobile_node,
  find_mobile_node_by_link, insert_router, insert_mobile_node, link, unlink, load_routers,
}

unfoldable pub is_among : List ℕ → List (List ℕ) → Bool
is_among k [] = false
is_among k (l ∷ ls) = list_beq l k || is_among k ls

module _ {A : Type 0} ⦃ops : AddressOps A⦄ where
  find-unlink :
      (ls : List (List ℕ)) (k : List ℕ) (m : Assoc (List ℕ) (MobileNode A))
      → find k (unlink ls m) ≡ (if is_among k ls then none else find k m)
  unfolding unlink is_among
  find-unlink [] k m = refl
  find-unlink (l ∷ ls) k m =
      rw (find-unlink ls k (erase l m)) (ground (arith, find-erase l k m, list_beq_iff l k))

  -- `m` holds the entries of `m0`, and one for each key in `before`, which `m0` does not have.
  record Added (before : List (List ℕ)) (m m0 : Assoc (List ℕ) (MobileNode A)) : Type 0 where
    undone : (k : List ℕ) → (if is_among k before then none else find k m) ≡ find k m0

  Added-put :
      (mn : MobileNode A) (l : List ℕ) (before : List (List ℕ))
      (m m0 : Assoc (List ℕ) (MobileNode A))
      → find l m ≡ none
      → Added before m m0
      → Added (l ∷ before) (put l mn m) m0
  unfolding is_among
  Added-put mn l before m m0 n v = record {
    undone = λ j. ground (arith, find-put l j mn m, list_beq_iff l j, v.undone j, v.undone l);
  }

  link-undone :
      (mn : MobileNode A) (before ls : List (List ℕ)) (m m0 : Assoc (List ℕ) (MobileNode A))
      (k : List ℕ)
      → Added before m m0
      → (link mn before ls m).1 ≡ false
      → find k (link mn before ls m).0 ≡ find k m0
  unfolding link
  link-undone mn before [] m m0 k v h = cc
  link-undone mn before (l ∷ ls) m m0 k v h = elim (Option-cases (find l m)) [
    | inl n ↦ rw n (
        link-undone mn (l ∷ before) ls (put l mn m) m0 k (Added-put mn l before m m0 n v)
          (rw n at h))
    | inr (x, n) ↦ rw (n, find-unlink before k m) (v.undone k)
  ]

  Added-start : (m : Assoc (List ℕ) (MobileNode A)) → Added [] m m
  unfolding is_among
  Added-start m = record { undone = λ k. refl }

  -- A mobile node that is refused, for its identifier or for a link address that is taken, by
  -- another node or twice by its own list, leaves the database as it was: what is found under
  -- every identifier and every link address, and the routers, are the same.
  pub insert_mobile_node_refused :
      (db : NodeDb A) (mn : MobileNode A) (id link_address : List ℕ)
      → (insert_mobile_node db mn).1 ≡ false
      → (find_mobile_node (insert_mobile_node db mn).0 id ≡ find_mobile_node db id)
        × (find_mobile_node_by_link (insert_mobile_node db mn).0 link_address
            ≡ find_mobile_node_by_link db link_address)
        × ((insert_mobile_node db mn).0.routers_by_id ≡ db.routers_by_id)
        × ((insert_mobile_node db mn).0.routers_by_key ≡ db.routers_by_key)
  unfolding insert_mobile_node
  insert_mobile_node_refused db mn id link_address h = ground (
    arith,
    link-undone mn [] mn.link_addresses db.mobiles_by_key db.mobiles_by_key link_address
        (Added-start db.mobiles_by_key),
  )

  -- After a loop that met no duplicate every link address of the list leads to the node, and the
  -- others to where they led.
  find-link :
      (mn : MobileNode A) (before ls : List (List ℕ)) (m : Assoc (List ℕ) (MobileNode A))
      (k : List ℕ)
      → (link mn before ls m).1 ≡ true
      → find k (link mn before ls m).0 ≡ (if is_among k ls then some mn else find k m)
  unfolding link is_among
  find-link mn before [] m k h = refl
  find-link mn before (l ∷ ls) m k h = elim (Option-cases (find l m)) [
    | inl n ↦ rw n (
        find-link mn (l ∷ before) ls (put l mn m) k (rw n at h)
        ∙ ground (arith, find-put l k mn m, list_beq_iff l k))
    | inr (x, n) ↦ absurd (ground (arith, rw n at h))
  ]

  -- A mobile node that is accepted is found under its identifier and under each of its link
  -- addresses; every other identifier and link address finds the mobile node that it found, and the
  -- two indexes of the routers are the same.
  pub insert_mobile_node_accepted :
      (db : NodeDb A) (mn : MobileNode A) (id link_address : List ℕ)
      → (insert_mobile_node db mn).1 ≡ true
      → (find_mobile_node (insert_mobile_node db mn).0 id
          ≡ (if mn.id == id then some mn else find_mobile_node db id))
        × (find_mobile_node_by_link (insert_mobile_node db mn).0 link_address ≡ (
            if is_among link_address mn.link_addresses
            then some mn
            else find_mobile_node_by_link db link_address))
        × ((insert_mobile_node db mn).0.routers_by_id ≡ db.routers_by_id)
        × ((insert_mobile_node db mn).0.routers_by_key ≡ db.routers_by_key)
  unfolding insert_mobile_node
  insert_mobile_node_accepted db mn id link_address h = ground (
    arith,
    find-put mn.id id mn db.mobiles_by_id,
    find-link mn [] mn.link_addresses db.mobiles_by_key link_address,
  )

  -- The router indexes hold the same routers, each under its own identifier and address.
  pub record IsConsistent (db : NodeDb A) : Type 0 where
    pub by_id :
        (id : List ℕ) (r : RouterNode A)
        → find_router_by_id db id ≡ some r
        → (r.id ≡ id) × (find_router db r.address ≡ some r)
    pub by_key :
        (address : A) (r : RouterNode A)
        → find_router db address ≡ some r
        → (r.address ≡ address) × (find_router_by_id db r.id ≡ some r)

  -- Inserting a router, whether it is accepted or refused, keeps the router indexes consistent.
  pub insert_router-IsConsistent :
      (db : NodeDb A) (r : RouterNode A) → IsConsistent db → IsConsistent (insert_router db r).0
  unfolding insert_router
  insert_router-IsConsistent db r v = record {
    by_id = λ id x h. ground (
      arith,
      v.by_id id x,
      list_beq_iff r.id id,
      eq_iff r.address x.address,
      find-put r.id id r db.routers_by_id,
      find-put r.address x.address r db.routers_by_key,
    );
    by_key = λ address x h. ground (
      arith,
      v.by_key address x,
      list_beq_iff r.id x.id,
      eq_iff r.address address,
      find-put r.id x.id r db.routers_by_id,
      find-put r.address address r db.routers_by_key,
    );
  }

  load_routers-IsConsistent :
      (db : NodeDb A) (rs : List (RouterNode A))
      → IsConsistent db
      → IsConsistent (load_routers db rs).0
  unfolding load_routers
  load_routers-IsConsistent db [] v = v
  load_routers-IsConsistent db (r ∷ rs) v =
      load_routers-IsConsistent (insert_router db r).0 rs (insert_router-IsConsistent db r v)
