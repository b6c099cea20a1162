-- ===== src/Pim.antt =====
-- The hello messages that lib/opmip/net/ip/pim_gen_parser.cpp generates, with the structures of
-- inc/opmip/net/ip/pim.hpp.
pub mod Hello
use odi_mm.Base.{
  ℕ, zero, suc, ◌+◌, ◌*◌, ◌/◌, ◌%◌, List, [], ◌∷◌, ◌++◌, Option, none, some, length, take, drop,
  ltb, nat_beq, ◌&&◌, if◌then◌else◌,
}
use odi_mm.Types.{AddressOps}
use odi_mm.Icmp.Advert.{short_bytes, long_bytes}

-- `hello_msg`
pub record HelloMsg (A : Type 0) : Type 0 where
  pub holdtime : Option ℕ
  pub dr_priority : Option ℕ
  pub generation_id : Option ℕ
  pub maddr_list : List A

-- `pim::hello`: version 2 and type 0, then a checksum that nothing fills in.
unfoldable pub hello_header : List ℕ
hello_header = 0x20 ∷ 0 ∷ 0 ∷ 0 ∷ []

-- `pim::hello::option`
unfoldable pub hello_option : ℕ → List ℕ → List ℕ
hello_option type value = short_bytes type ++ (short_bytes (length value) ++ value)

unfoldable pub holdtime_option : Option ℕ → Option (List ℕ)
unfolding hello_option
holdtime_option none = none
holdtime_option (some value) = some (hello_option 1 (short_bytes value))

unfoldable pub dr_priority_option : Option ℕ → Option (List ℕ)
unfolding hello_option
dr_priority_option none = none
dr_priority_option (some value) = some (hello_option 19 (long_bytes value))

unfoldable pub generation_id_option : Option ℕ → Option (List ℕ)
unfolding hello_option
generation_id_option none = none
generation_id_option (some value) = some (hello_option 20 (long_bytes value))

-- One step of `gen`: an option that the message has is written if it fits in the buffer.
unfoldable pub put_option : ℕ → Option (List ℕ) → Option (List ℕ) → Option (List ℕ)
put_option room opt none = none
put_option room none (some out) = some out
put_option room (some bytes) (some out) =
    if ltb room (length out + length bytes) then none else some (out ++ bytes)

module _ {A : Type 0} ⦃ops : AddressOps A⦄ where
  -- `enc_unicast`, for each address of the list.
  unfoldable pub unicasts : List A → List ℕ
  unicasts [] = []
  unicasts (a ∷ rest) = 2 ∷ 0 ∷ (ops.to_bytes a ++ unicasts rest)

  unfoldable pub address_list_option : List A → Option (List ℕ)
  unfolding hello_option unicasts
  address_list_option [] = none
  address_list_option (a ∷ rest) = some (hello_option 24 (unicasts (a ∷ rest)))

  -- `hello_msg::gen`: the bytes that it has written when it returns their number, and none when it
  -- returns 0.
  unfoldable pub hello_gen : HelloMsg A → ℕ → Option (List ℕ)
  unfolding hello_header holdtime_option dr_priority_option generation_id_option address_list_option
      put_option
  hello_gen msg room =
      if ltb room 4
      then none
      else put_option room (address_list_option msg.maddr_list) (
          put_option room (generation_id_option msg.generation_id) (
            put_option room (dr_priority_option msg.dr_priority)
              (put_option room (holdtime_option msg.holdtime) (some hello_header))))

-- The size of an option that a message may have.
abbrev pub optional_size : ℕ → Option ℕ → ℕ
optional_size n none = 0
optional_size n (some v) = n

abbrev pub list_size {ℓ} : {A : Type ℓ} → List A → ℕ
list_size [] = 0
list_size (a ∷ rest) = 4 + 18 * suc (length rest)

-- What a message takes.
abbrev pub hello_size : {A : Type 0} → HelloMsg A → ℕ
hello_size msg =
    4
    + optional_size 6 msg.holdtime
    + optional_size 8 msg.dr_priority
    + optional_size 8 msg.generation_id
    + list_size msg.maddr_list

-- A neighbour that reads hello messages by RFC 4601.
abbrev pub short_of : List ℕ → ℕ
short_of (a ∷ b ∷ bytes) = a * 256 + b
short_of bytes = 0

abbrev pub long_of : List ℕ → ℕ
long_of (a ∷ b ∷ c ∷ d ∷ bytes) = ((a * 256 + b) * 256 + c) * 256 + d
long_of bytes = 0

-- Encoded unicast addresses: family 2 (IPv6), encoding type 0 (native), and sixteen bytes.
abbrev pub read_unicasts : ℕ → List ℕ → Option (List (List ℕ))
read_unicasts zero bytes = some []
read_unicasts (suc n) (family ∷ type ∷ bytes) =
    let others = read_unicasts n (drop 16 bytes) in
    if nat_beq family 2 && nat_beq type 0
    then elim others [ none ↦ none | some found ↦ some (take 16 bytes ∷ found) ]
    else none
read_unicasts (suc n) (b ∷ []) = none
read_unicasts (suc n) [] = none

-- An option of a known type has the length of its type.
abbrev pub take_option : ℕ → List ℕ → HelloMsg (List ℕ) → Option (HelloMsg (List ℕ))
take_option type value m =
    if nat_beq type 1
    then (if nat_beq (length value) 2
        then some (record m { holdtime = some (short_of value) })
        else none)
    else if nat_beq type 19
    then (if nat_beq (length value) 4
        then some (record m { dr_priority = some (long_of value) })
        else none)
    else if nat_beq type 20
    then (if nat_beq (length value) 4
        then some (record m { generation_id = some (long_of value) })
        else none)
    else if nat_beq type 24
    then (if nat_beq (length value % 18) 0
        then elim (read_unicasts (length value / 18) value) [
          | none ↦ none
          | some addresses ↦ some (record m { maddr_list = addresses })
        ]
        else none)
    else some m

unfoldable pub read_hello : ℕ → List ℕ → Option (HelloMsg (List ℕ))
read_hello fuel [] =
    some (record { holdtime = none; dr_priority = none; generation_id = none; maddr_list = [] })
read_hello zero (b ∷ bytes) = none
read_hello (suc fuel) (t1 ∷ t0 ∷ l1 ∷ l0 ∷ rest) =
    let n = l1 * 256 + l0 in
    let others = read_hello fuel (drop n rest) in
    if ltb (length rest) n
    then none
    else elim others [ none ↦ none | some m ↦ take_option (t1 * 256 + t0) (take n rest) m ]
read_hello (suc fuel) (b ∷ bytes) = none

-- A whole message: version 2 and type 0, then the reserved byte and the checksum, which are not looked
-- at, and the options.
unfoldable pub read_message : List ℕ → Option (HelloMsg (List ℕ))
unfolding read_hello
read_message (version_type ∷ reserved ∷ c1 ∷ c0 ∷ options) =
    if nat_beq (version_type / 16) 2 && nat_beq (version_type % 16) 0
    then read_hello 4 options
    else none
read_message bytes = none
