-- ===== src/Types.antt =====
-- Network prefixes (net/ip/prefix.cpp, prefix.hpp) and the record that a proxy binding message is
-- parsed into (pmip/types.hpp). Strings and byte arrays are lists of bytes. Codes that the source
-- casts from a byte (status, handoff indicator, link technology) stay numbers, under the names of
-- the source's enumerators. `A` is the address type, boost's `address_v6`.
use odi_mm.Base.{
  ℕ, ◌≤◌, ◌≡◌, ◌↔◌, Bool, ◌&&◌, List, [], replicate, length, arith, ltb, Eq, ◌==◌, nat_eq, true,
  list_eq, list_beq_iff, nat_beq_iff, if◌then◌else◌,
}
pub mod Order
pub mod Text

pub record Prefix : Type 0 where
  pub bytes : List ℕ
  pub length : ℕ

-- `prefix_v6(const bytes_type&, uint)`: a length past 128 gives the empty prefix.
unfoldable pub prefix_v6 : List ℕ → ℕ → Prefix
prefix_v6 addr len =
    if ltb 128 len
    then record { bytes = replicate 16 0; length = 0 }
    else record { bytes = addr; length = len }

-- `operator==`, which the order of the route maps agrees with.
unfoldable pub prefix_beq : Prefix → Prefix → Bool
prefix_beq p q = p.length == q.length && p.bytes == q.bytes

pub prefix_beq_iff : (p q : Prefix) → (prefix_beq p q ≡ true) ↔ (p ≡ q)
unfolding prefix_beq
prefix_beq_iff p q = ground (arith, nat_beq_iff p.length q.length, list_beq_iff p.bytes q.bytes)

instance abbrev pub prefix_eq : Eq Prefix
prefix_eq = record { equals = prefix_beq; equals_iff = prefix_beq_iff }

-- What an array of 16 bytes and the constructors give every prefix.
pub record IsPrefix (p : Prefix) : Type 0 where
  pub width : length p.bytes ≡ 16
  pub short : p.length ≤ 128

-- mproto::pba::status_type, the values that the daemons send.
abbrev pub status_ok : ℕ
status_ok = 0

abbrev pub status_bad_sequence : ℕ
status_bad_sequence = 135

abbrev pub status_not_lma_for_this_mn : ℕ
status_not_lma_for_this_mn = 153

abbrev pub status_not_authorized_for_proxy_reg : ℕ
status_not_authorized_for_proxy_reg = 154

-- mproto::option::handoff::type
abbrev pub handoff_reserved : ℕ
handoff_reserved = 0

abbrev pub handoff_unknown : ℕ
handoff_unknown = 4

abbrev pub handoff_not_changed : ℕ
handoff_not_changed = 5

-- ll::technology
abbrev pub tech_unknown : ℕ
tech_unknown = 0

pub record ProxyBindingInfo (A : Type 0) : Type 0 where
  pub id : List ℕ
  pub address : A
  pub lifetime : ℕ
  pub sequence : ℕ
  pub handoff : ℕ
  pub status : ℕ
  pub prefix_list : List Prefix
  pub link_type : ℕ

-- boost's address type, with what the daemons ask of it: equality, the default constructor and
-- `is_unspecified`, which holds of a default-constructed address, `to_bytes`, and the
-- constructor from bytes and a scope, here from an address and a scope.
pub record AddressOps (A : Type 0) : Type 0 where
  pub equal : Eq A
  pub any : A
  pub is_unspecified : A → Bool
  pub is_unspecified-any : is_unspecified any ≡ true
  pub to_bytes : A → List ℕ
  pub with_scope : A → ℕ → A

instance abbrev pub address_eq : {A : Type 0} ⦃ops : AddressOps A⦄ → Eq A
address_eq ⦃ops⦄ = ops.equal

-- The default constructor.
unfoldable pub proxy_binding_info : {A : Type 0} ⦃ops : AddressOps A⦄ → ProxyBindingInfo A
proxy_binding_info ⦃ops⦄ = record {
  id = [];
  address = ops.any;
  lifetime = 0;
  sequence = 0;
  handoff = handoff_reserved;
  status = status_ok;
  prefix_list = [];
  link_type = tech_unknown;
}
