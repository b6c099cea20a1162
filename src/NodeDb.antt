-- ===== src/NodeDb.antt =====
-- pmip/node_db.cpp: the routers and mobile nodes that a daemon knows, each indexed by identifier and
-- by address. Nodes are not changed once inserted, so an index holds the node, not a pointer to it.
-- The JSON parser is not modelled: `load` is its loops, over the nodes that the parser yields.
pub mod Indexes
use Prim.Native.Nat.{bit_and}
use odi_mm.Base.{
  ℕ, ◌+◌, ◌-◌, ◌*◌, ◌/◌, ◌%◌, ◌^◌, ◌≡◌, Bool, true, false, not, ◌&&◌, List, [], ◌∷◌, Option, none,
  some, Assoc, find, put, erase, take, drop, ltb, nat_beq, Eq, nat_eq, list_eq, list_beq, ◌==◌,
  if◌then◌else◌,
}
use odi_mm.Types.{Prefix, AddressOps, address_eq}
use odi_mm.Wire.Message.{byte_at}

pub record RouterNode (A : Type 0) : Type 0 where
  pub id : List ℕ
  pub address : A
  pub device_id : ℕ

pub record MobileNode (A : Type 0) : Type 0 where
  pub id : List ℕ
  pub prefix_list : List Prefix
  pub link_addresses : List (List ℕ)
  pub lma_id : List ℕ
  pub home_address : A

pub record NodeDb (A : Type 0) : Type 0 where
  pub routers_by_id : Assoc (List ℕ) (RouterNode A)
  pub routers_by_key : Assoc A (RouterNode A)
  pub mobiles_by_id : Assoc (List ℕ) (MobileNode A)
  pub mobiles_by_key : Assoc (List ℕ) (MobileNode A)

abbrev pub empty : {A : Type 0} → NodeDb A
empty = record { routers_by_id = []; routers_by_key = []; mobiles_by_id = []; mobiles_by_key = [] }

abbrev pub is_some {ℓ} : {V : Type ℓ} → Option V → Bool
is_some none = false
is_some (some v) = true

-- `prefix_v6::match` on the bytes of an address: whole bytes, then the leading bits of the next.
unfoldable pub match_prefix : Prefix → List ℕ → Bool
unfolding list_beq
match_prefix p a =
    let whole = p.length / 8 in
    let bits = p.length % 8 in
    if not (list_beq (take whole p.bytes) (take whole a))
    then false
    else if nat_beq bits 0
    then true
    else let mask = 255 * 2 ^ (8 - bits) % 256 in
      nat_beq (bit_and (byte_at p.bytes whole) mask) (bit_and (byte_at a whole) mask)

module _ {A : Type 0} ⦃ops : AddressOps A⦄ where
  abbrev pub find_router_by_id : NodeDb A → List ℕ → Option (RouterNode A)
  find_router_by_id db id = find id db.routers_by_id

  abbrev pub find_router : NodeDb A → A → Option (RouterNode A)
  find_router db address = find address db.routers_by_key

  abbrev pub find_mobile_node : NodeDb A → List ℕ → Option (MobileNode A)
  find_mobile_node db id = find id db.mobiles_by_id

  abbrev pub find_mobile_node_by_link : NodeDb A → List ℕ → Option (MobileNode A)
  find_mobile_node_by_link db link = find link db.mobiles_by_key

  unfoldable pub insert_router : NodeDb A → RouterNode A → NodeDb A × Bool
  unfolding find put
  insert_router db r =
      if is_some (find_router_by_id db r.id)
      then (db, false)
      else if is_some (find_router db r.address)
      then (db, false)
      else (
        record db {
          routers_by_id = put r.id r db.routers_by_id;
          routers_by_key = put r.address r db.routers_by_key;
        },
        true,
      )

  -- The keys that were inserted before the loop met a duplicate, erased again.
  unlink : List (List ℕ) → Assoc (List ℕ) (MobileNode A) → Assoc (List ℕ) (MobileNode A)
  unlink [] m = m
  unlink (l ∷ ls) m = unlink ls (erase l m)

  -- The loop over the link addresses. `before` are those that it has inserted.
  link :
      MobileNode A
      → List (List ℕ)
      → List (List ℕ)
      → Assoc (List ℕ) (MobileNode A)
      → Assoc (List ℕ) (MobileNode A) × Bool
  unfolding unlink
  link mn before [] m = (m, true)
  link mn before (l ∷ ls) m =
      let rest = link mn (l ∷ before) ls (put l mn m) in
      if is_some (find l m) then (unlink before m, false) else rest

  unfoldable pub insert_mobile_node : NodeDb A → MobileNode A → NodeDb A × Bool
  unfolding find put erase link
  insert_mobile_node db mn =
      if is_some (find_mobile_node db mn.id)
      then (db, false)
      else let (m, linked) = link mn [] mn.link_addresses db.mobiles_by_key in
        if linked
        then (record db { mobiles_by_id = put mn.id mn db.mobiles_by_id; mobiles_by_key = m }, true)
        else (record db { mobiles_by_key = m }, false)

  -- The home address of a record is kept only if one of its prefixes matches it.
  any_match : List Prefix → A → Bool
  unfolding match_prefix
  any_match [] a = false
  any_match (p ∷ ps) a = if match_prefix p (ops.to_bytes a) then true else any_match ps a

  unfoldable pub checked_home : MobileNode A → MobileNode A
  unfolding any_match
  checked_home mn =
      if any_match mn.prefix_list mn.home_address then mn else record mn { home_address = ops.any }

  load_routers : NodeDb A → List (RouterNode A) → NodeDb A × ℕ
  unfolding insert_router
  load_routers db [] = (db, 0)
  load_routers db (r ∷ rs) =
      let (db', added) = insert_router db r in
      let (db'', n) = load_routers db' rs in (db'', if added then n + 1 else n)

  load_mobiles : NodeDb A → List (MobileNode A) → NodeDb A × ℕ
  unfolding insert_mobile_node checked_home
  load_mobiles db [] = (db, 0)
  load_mobiles db (mn ∷ mns) =
      let (db', added) = insert_mobile_node db (checked_home mn) in
      let (db'', n) = load_mobiles db' mns in (db'', if added then n + 1 else n)

  unfoldable pub load : NodeDb A → List (RouterNode A) → List (MobileNode A) → NodeDb A × ℕ × ℕ
  unfolding load_routers load_mobiles
  load db routers mobiles =
      let (db', rcnt) = load_routers db routers in
      let (db'', mcnt) = load_mobiles db' mobiles in (db'', rcnt, mcnt)
