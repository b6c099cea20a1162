-- ===== src/Wire/Message.antt =====
-- What the sender and the receiver share: results of code that may fault, 16-bit fields in network
-- order, and the fixed part of a message (mproto::header, mproto::pbu, mproto::pba).
use odi_mm.Base.{
  ℕ, zero, suc, ◌+◌, ◌*◌, ◌/◌, ◌%◌, Bool, not, ◌||◌, ◌&&◌, List, [], ◌∷◌, ltb, nat_beq,
}

-- How C++ code ends when it neither returns a value nor reports an error.
pub data Fault : Type 0 where
  assertion out_of_bounds length_error : Fault

-- `refused` is a parser's `return false`.
pub data Outcome {ℓ} (A : Type ℓ) : Type ℓ where
  ok : A → Outcome A
  refused : Outcome A
  fault : Fault → Outcome A
  exhausted : Outcome A

infixl 5 ◌>>=◌
abbrev pub ◌>>=◌ {ℓ κ} : {A : Type ℓ} {B : Type κ} → Outcome A → (A → Outcome B) → Outcome B
ok a >>= f = f a
refused >>= f = refused
fault e >>= f = fault e
exhausted >>= f = exhausted

-- sizeof(_buffer) of the senders and the receivers, sizeof(header), and sizeof(pbu), sizeof(pba).
abbrev pub buffer_size : ℕ
buffer_size = 1460

abbrev pub header_size : ℕ
header_size = 6

abbrev pub message_size : ℕ
message_size = 12

-- mh_type
abbrev pub mh_pbu : ℕ
mh_pbu = 5

abbrev pub mh_pba : ℕ
mh_pba = 6

-- `htons` and `ntohs` through memory; the uint16 parameter truncates.
abbrev pub htons : ℕ → List ℕ → List ℕ
htons v rest = (v / 256 % 256) ∷ (v % 256) ∷ rest

abbrev pub ntohs : ℕ → ℕ → ℕ
ntohs high low = high * 256 + low

-- `align_to<8>`
abbrev pub align_to : ℕ → ℕ
align_to value = (value + 7) / 8 * 8

-- `header::init`: next, _length, mh_type, reserved, checksum.
unfoldable pub init : ℕ → ℕ → List ℕ → List ℕ
init type len rest = 59 ∷ ((len / 8 + 255) % 256) ∷ type ∷ 0 ∷ 0 ∷ 0 ∷ rest

abbrev pub byte_at : List ℕ → ℕ → ℕ
byte_at [] i = 0
byte_at (b ∷ bs) zero = b
byte_at (b ∷ bs) (suc i) = byte_at bs i

-- `header::length() const`
abbrev pub header_length : List ℕ → ℕ
header_length buff = (byte_at buff 1 + 1) * 8

-- `header::cast`: whether the buffer holds a whole message.
unfoldable pub header_cast : List ℕ → ℕ → Bool
header_cast buff len = not (ltb len header_size || ltb len (header_length buff))

-- `pbu::cast` and `pba::cast`.
unfoldable pub message_cast : ℕ → List ℕ → Bool
message_cast mh_type buff =
    nat_beq (byte_at buff 2) mh_type && not (ltb (header_length buff) message_size)
