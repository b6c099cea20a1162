-- ===== src/Bcache.antt =====
-- pmip/bcache.cpp: the binding cache of a local mobility anchor, by mobile node identifier. The
-- entries are changed through the pointer that `find` returns, which is a `put` here.
use odi_mm.Base.{
  ℕ, Bool, true, false, List, Option, none, some, Assoc, find, put, erase, nat_eq, list_eq,
}
use odi_mm.Types.{Prefix, AddressOps, tech_unknown}

pub data BindStatus : Type 0 where
  bind_unknown bind_registered bind_deregistered : BindStatus

-- What the entry's deadline timer waits for, with its duration: `expired_entry` in seconds, or
-- `remove_entry` in milliseconds.
pub data Wait : Type 0 where
  expires_in removes_in : ℕ → Wait

pub record BcacheEntry (A : Type 0) : Type 0 where
  pub id : List ℕ
  pub prefix_list : List Prefix
  pub care_of_address : A
  pub lifetime : ℕ
  pub sequence : ℕ
  pub link_type : ℕ
  pub bind_status : BindStatus
  pub timer : Option Wait

abbrev pub Bcache : Type 0 → Type 0
Bcache A = Assoc (List ℕ) (BcacheEntry A)

-- The constructor.
unfoldable pub bcache_entry :
    {A : Type 0} ⦃ops : AddressOps A⦄ → List ℕ → List Prefix → BcacheEntry A
bcache_entry ⦃ops⦄ id prefix_list = record {
  id = id;
  prefix_list = prefix_list;
  care_of_address = ops.any;
  lifetime = 0;
  sequence = 0;
  link_type = tech_unknown;
  bind_status = bind_unknown;
  timer = none;
}

module _ {A : Type 0} where
  abbrev pub lookup : Bcache A → List ℕ → Option (BcacheEntry A)
  lookup cache id = find id cache

  -- A second entry under an identifier is deleted.
  unfoldable pub insert : Bcache A → BcacheEntry A → Bcache A × Bool
  unfolding find put
  insert cache e = elim (find e.id cache) [
    | some old ↦ (cache, false)
    | none ↦ (put e.id e cache, true)
  ]

  unfoldable pub remove : Bcache A → BcacheEntry A → Bcache A
  unfolding erase
  remove cache e = erase e.id cache
