-- ===== src/Wire/Flags.antt =====
-- The flag bits of a binding update and acknowledgement (ip/mproto.hpp).
use Prim.Native.Nat.{bit_and, bit_or}
use odi_mm.Base.{
  ℕ, zero, suc, ◌-◌, ◌^◌, ◌<◌, ◌≡◌, refl, Bool, true, false, not, ◌&&◌, arith, nat_beq,
  if◌then◌else◌,
}

-- `return _flags & v;`
unfoldable pub get_flag : ℕ → ℕ → Bool
get_flag v flags = not (nat_beq (bit_and flags v) 0)

-- `if (value) _flags |= v; else _flags &= ~v;` on a byte.
unfoldable pub set_flag : ℕ → Bool → ℕ → ℕ
set_flag v value flags = if value then bit_or flags v else bit_and flags (255 - v)

-- The masks, `1u << n`.
abbrev pub pbu_ack : ℕ
pbu_ack = 0x80

abbrev pub pbu_proxy_reg : ℕ
pbu_proxy_reg = 0x02

abbrev pub pba_proxy_reg : ℕ
pba_proxy_reg = 0x20

-- Over a byte and two bit numbers every case is evaluated.
every : (ℕ → Bool) → ℕ → Bool
every test zero = true
every test (suc m) = if test m then every test m else false

every-at : (test : ℕ → Bool) (i m : ℕ) → i < m → every test m ≡ true → test i ≡ true
unfolding every
every-at test i (suc m) below all = ground (arith, every-at test i m)
every-at test i zero below all = elim below [ ]

same : Bool → Bool → Bool
same true b = b
same false b = not b

same-eq : (a b : Bool) → same a b ≡ true → a ≡ b
unfolding same
same-eq a b h = ground arith

agrees : ℕ → ℕ → ℕ → Bool → Bool
unfolding get_flag set_flag same
agrees flags i j value =
    same (get_flag (2 ^ i) (set_flag (2 ^ j) value flags))
      (if nat_beq i j then value else get_flag (2 ^ i) flags)

agrees_table :
    every (λ f. every (λ i. every (λ j. agrees f i j true && agrees f i j false) 8) 8) 256 ≡ true
unfolding every agrees
agrees_table = refl

agrees_all :
    (f i j : ℕ) → f < 256 → i < 8 → j < 8 → (agrees f i j true && agrees f i j false) ≡ true
agrees_all f i j hf hi hj =
    every-at (λ m. agrees f i m true && agrees f i m false) j 8 hj
      (every-at _ i 8 hi (every-at _ f 256 hf agrees_table))

-- On a byte of flags, reading any one bit after any setter gives the value set if the bits are the
-- same, and otherwise what the bit was: the setters do not disturb one another.
pub get_flag-set_flag :
    (flags i j : ℕ) (value : Bool)
    → flags < 256
    → i < 8
    → j < 8
    → get_flag (2 ^ i) (set_flag (2 ^ j) value flags)
      ≡ (if nat_beq i j then value else get_flag (2 ^ i) flags)
unfolding agrees
get_flag-set_flag flags i j true hf hi hj =
    same-eq _ _ (ground (arith, agrees_all flags i j hf hi hj))
get_flag-set_flag flags i j false hf hi hj =
    same-eq _ _ (ground (arith, agrees_all flags i j hf hi hj))
