-- ===== src/LinkAddress.antt =====
-- Link addresses and their text: net/link/address_mac.cpp and address_mac.hpp. An address is the
-- list of its six bytes. A string is read as `c_str` gives it, its bytes and then a 0.
pub mod RoundTrip
use odi_mm.Base.{
  ℕ, zero, suc, ◌+◌, ◌-◌, ◌*◌, ◌/◌, ◌%◌, Bool, true, not, ◌&&◌, ◌||◌, List, [], ◌∷◌, length, take,
  replicate, drop, ltb, leb, nat_beq, if◌then◌else◌,
}

-- The default constructor.
abbrev pub no_address : List ℕ
no_address = replicate 6 0

-- `operator!`
unfoldable pub is_null : List ℕ → Bool
is_null [] = true
is_null (b ∷ bs) = nat_beq b 0 && is_null bs

-- `*str`
unfoldable pub peek : List ℕ → ℕ
peek [] = 0
peek (c ∷ str) = c

-- `std::isxdigit` of the C locale.
unfoldable pub is_xdigit : ℕ → Bool
is_xdigit c =
    (leb b'0' c && leb c b'9') || ((leb b'A' c && leb c b'F') || (leb b'a' c && leb c b'f'))

unfoldable pub hex_to_int : ℕ → ℕ
hex_to_int c =
    if leb b'a' c then (c - b'a') + 10 else if leb b'A' c then (c - b'A') + 10 else c - b'0'

-- `_address[i] = b`
unfoldable pub set_byte : ℕ → ℕ → List ℕ → List ℕ
set_byte i b [] = []
set_byte zero b (x ∷ xs) = b ∷ xs
set_byte (suc i) b (x ∷ xs) = x ∷ set_byte i b xs

-- The locals of `from_string` where its loop ends.
pub record Scan : Type 0 where
  pub i : ℕ
  pub mac : List ℕ
  pub str : List ℕ

-- The loop with `left` rounds to go. The two digits have no bits in common.
unfoldable pub scan : ℕ → ℕ → List ℕ → List ℕ → Scan
unfolding peek is_xdigit hex_to_int set_byte
scan zero i mac str = record { i = i; mac = mac; str = str }
scan (suc left) i mac str =
    let second = drop 1 str in
    let behind = drop 2 str in
    let read = set_byte i (hex_to_int (peek str) * 16 + hex_to_int (peek second)) mac in
    let next = scan left (suc i) read (drop 1 behind) in
    if not (is_xdigit (peek str))
    then record { i = i; mac = mac; str = str }
    else if not (is_xdigit (peek second))
    then record { i = i; mac = mac; str = second }
    else if not (nat_beq (peek behind) b':')
    then record { i = i; mac = read; str = behind }
    else next

unfoldable pub from_string : List ℕ → List ℕ
unfolding scan peek
from_string str =
    let end = scan 6 0 no_address str in
    if not (nat_beq (end.i + 1) 6) || not (nat_beq (peek end.str) 0) then no_address else end.mac

-- One digit of `to_string`.
unfoldable pub digit : ℕ → ℕ
digit d = if ltb d 10 then d + b'0' else d + (b'a' - 10)

unfoldable pub pairs : List ℕ → List ℕ
unfolding digit
pairs [] = []
pairs (b ∷ bs) = digit (b / 16) ∷ digit (b % 16) ∷ b':' ∷ pairs bs

-- `str.resize(str.length() - 1)`
unfoldable pub to_string : List ℕ → List ℕ
unfolding pairs
to_string mac = let str = pairs mac in take (length str - 1) str
