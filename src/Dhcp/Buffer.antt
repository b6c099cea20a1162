-- ===== src/Dhcp/Buffer.antt =====
-- The `buffer_type` of net/ip/dhcp_v6.hpp, and the big-endian integers of dhcp_v6.cpp. A buffer
-- that is written is an array and the place of its first pointer; its second pointer is the array's
-- end. What a generator leaves in the buffer when it returns false is not modelled, since its
-- callers drop the buffer then.
use odi_mm.Base.{
  ℕ, zero, suc, ◌+◌, ◌-◌, ◌*◌, ◌/◌, ◌%◌, ◌^◌, ◌++◌, List, [], ◌∷◌, Option, none, some, length, ltb,
  if◌then◌else◌,
}

pub record Buffer : Type 0 where
  pub memory : List ℕ
  pub first : ℕ

-- How a generator ends: it returns true, it returns false, or a BOOST_ASSERT in it fails.
pub data Gen {ℓ} (A : Type ℓ) : Type ℓ where
  wrote : A → Gen A
  full : Gen A
  failed : Gen A

infixl 5 ◌>>=◌
unfoldable pub ◌>>=◌ {ℓ κ} : {A : Type ℓ} {B : Type κ} → Gen A → (A → Gen B) → Gen B
wrote a >>= f = f a
full >>= f = full
failed >>= f = failed

unfoldable pub buffer_size : Buffer → ℕ
buffer_size buff = length buff.memory - buff.first

-- The bytes of the array from `i` on are overwritten.
unfoldable pub overwrite : ℕ → List ℕ → List ℕ → List ℕ
overwrite i bytes [] = []
overwrite (suc i) bytes (x ∷ xs) = x ∷ overwrite i bytes xs
overwrite zero [] (x ∷ xs) = x ∷ xs
overwrite zero (b ∷ bytes) (x ∷ xs) = b ∷ overwrite zero bytes xs

-- The test on the space, and `*buff.first++ = b` for each byte.
unfoldable pub store : Buffer → List ℕ → Gen Buffer
unfolding buffer_size overwrite
store buff bytes =
    if ltb (buffer_size buff) (length bytes)
    then full
    else wrote (record {
      memory = overwrite buff.first bytes buff.memory;
      first = buff.first + length bytes;
    })

abbrev pub be8 : ℕ → List ℕ
be8 v = (v % 256) ∷ []

abbrev pub be16 : ℕ → List ℕ
be16 v = (v / 256 % 256) ∷ (v % 256) ∷ []

abbrev pub be24 : ℕ → List ℕ
be24 v = (v / 65536 % 256) ∷ (v / 256 % 256) ∷ (v % 256) ∷ []

abbrev pub be32 : ℕ → List ℕ
be32 v = (v / 16777216 % 256) ∷ (v / 65536 % 256) ∷ (v / 256 % 256) ∷ (v % 256) ∷ []

unfoldable pub put_be_uint8 : Buffer → ℕ → Gen Buffer
unfolding store
put_be_uint8 buff v = store buff (be8 v)

unfoldable pub put_be_uint16 : Buffer → ℕ → Gen Buffer
unfolding store
put_be_uint16 buff v = store buff (be16 v)

unfoldable pub put_be_uint24 : Buffer → ℕ → Gen Buffer
unfolding store
put_be_uint24 buff v = store buff (be24 v)

unfoldable pub put_be_uint32 : Buffer → ℕ → Gen Buffer
unfolding store
put_be_uint32 buff v = store buff (be32 v)

unfoldable pub put_be_uint64 : Buffer → ℕ → Gen Buffer
unfolding store
put_be_uint64 buff v = store buff (be32 (v / 2 ^ 32) ++ be32 v)

-- What is read, and the bytes behind it.
abbrev pub Read {ℓ} : Type ℓ → Type ℓ
Read A = Option (A × List ℕ)

unfoldable pub get_be_uint8 : List ℕ → Read ℕ
get_be_uint8 [] = none
get_be_uint8 (a ∷ rest) = some (a, rest)

unfoldable pub get_be_uint16 : List ℕ → Read ℕ
get_be_uint16 (a ∷ b ∷ rest) = some (a * 256 + b, rest)
get_be_uint16 (a ∷ []) = none
get_be_uint16 [] = none

unfoldable pub get_be_uint24 : List ℕ → Read ℕ
get_be_uint24 (a ∷ b ∷ c ∷ rest) = some ((a * 256 + b) * 256 + c, rest)
get_be_uint24 (a ∷ b ∷ []) = none
get_be_uint24 (a ∷ []) = none
get_be_uint24 [] = none

unfoldable pub get_be_uint32 : List ℕ → Read ℕ
get_be_uint32 (a ∷ b ∷ c ∷ d ∷ rest) = some (((a * 256 + b) * 256 + c) * 256 + d, rest)
get_be_uint32 (a ∷ b ∷ c ∷ []) = none
get_be_uint32 (a ∷ b ∷ []) = none
get_be_uint32 (a ∷ []) = none
get_be_uint32 [] = none

-- The fifth byte is shifted as an `int`: from 128 on the result is negative, and its sign sets the
-- upper half of the 64 bits.
abbrev pub widen : ℕ → ℕ → ℕ
widen high low = if ltb low (2 ^ 31) then high * 2 ^ 32 + low else (2 ^ 32 - 1) * 2 ^ 32 + low

unfoldable pub get_be_uint64 : List ℕ → Read ℕ
unfolding get_be_uint32
get_be_uint64 bytes = elim (get_be_uint32 bytes) [
  | none ↦ none
  | some (high, behind) ↦ elim (get_be_uint32 behind) [
    | none ↦ none
    | some (low, rest) ↦ some (widen high low, rest)
  ]
]
