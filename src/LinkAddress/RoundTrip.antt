-- ===== src/LinkAddress/RoundTrip.antt =====
-- What address_mac.cpp reads back from the text that it writes, and from texts that end early.
use odi_mm.Base.{ℕ, suc, ◌+◌, ◌*◌, ◌/◌, ◌%◌, ◌<◌, ◌≡◌, refl, true, List, [], ◌∷◌, arith, All}
use odi_mm.LinkAddress.{
  peek, is_xdigit, hex_to_int, set_byte, scan, from_string, digit, pairs, to_string,
}

digit-is_xdigit : (d : ℕ) → d < 16 → is_xdigit (digit d) ≡ true
unfolding is_xdigit digit
digit-is_xdigit d h = ground arith

hex_to_int-digit : (d : ℕ) → d < 16 → hex_to_int (digit d) ≡ d
unfolding hex_to_int digit
hex_to_int-digit d h = ground arith

-- A round over two digits that is followed by a colon, and one that ends the loop.
module _ (left i b : ℕ) (mac rest : List ℕ) (h : b < 256) where
  scan_digits :
      scan (suc left) i mac (digit (b / 16) ∷ digit (b % 16) ∷ b':' ∷ rest)
      ≡ scan left (suc i) (set_byte i b mac) rest
  unfolding scan peek
  scan_digits =
      let high : b / 16 < 16 = omega arith in
      let low : b % 16 < 16 = omega arith in
      let whole : b / 16 * 16 + b % 16 ≡ b = omega arith in
      rw
        (
          digit-is_xdigit (b / 16) high,
          digit-is_xdigit (b % 16) low,
          hex_to_int-digit (b / 16) high,
          hex_to_int-digit (b % 16) low,
          whole,
        )
        refl

  scan_last :
      scan (suc left) i mac (digit (b / 16) ∷ digit (b % 16) ∷ [])
      ≡ record { i = i; mac = set_byte i b mac; str = [] }
  unfolding scan peek
  scan_last =
      let high : b / 16 < 16 = omega arith in
      let low : b % 16 < 16 = omega arith in
      let whole : b / 16 * 16 + b % 16 ≡ b = omega arith in
      rw
        (
          digit-is_xdigit (b / 16) high,
          digit-is_xdigit (b % 16) low,
          hex_to_int-digit (b / 16) high,
          hex_to_int-digit (b % 16) low,
          whole,
        )
        refl

-- The text that address_mac::to_string writes for six bytes is read back as these bytes.
pub from_string-to_string :
    (a b c d e f : ℕ)
    → All (λ x. x < 256) (a ∷ b ∷ c ∷ d ∷ e ∷ f ∷ [])
    → from_string (to_string (a ∷ b ∷ c ∷ d ∷ e ∷ f ∷ [])) ≡ a ∷ b ∷ c ∷ d ∷ e ∷ f ∷ []
unfolding from_string to_string pairs set_byte peek
from_string-to_string a b c d e f h =
    rw
      (
        from_string,
        scan_digits 5 0 a _ _ h.0,
        scan_digits 4 1 b _ _ h.1.0,
        scan_digits 3 2 c _ _ h.1.1.0,
        scan_digits 2 3 d _ _ h.1.1.1.0,
        scan_digits 1 4 e _ _ h.1.1.1.1.0,
        scan_last 0 5 f _ [] h.1.1.1.1.1.0,
      )
      refl

-- A text that ends behind its fifth colon, so that it has no sixth byte, is accepted: the last byte
-- of the address is 0.
pub from_string_incomplete :
    (a b c d e : ℕ)
    → All (λ x. x < 256) (a ∷ b ∷ c ∷ d ∷ e ∷ [])
    → from_string (pairs (a ∷ b ∷ c ∷ d ∷ e ∷ [])) ≡ a ∷ b ∷ c ∷ d ∷ e ∷ 0 ∷ []
unfolding from_string pairs set_byte peek
from_string_incomplete a b c d e h =
    rw
      (
        from_string,
        scan_digits 5 0 a _ _ h.0,
        scan_digits 4 1 b _ _ h.1.0,
        scan_digits 3 2 c _ _ h.1.1.0,
        scan_digits 2 3 d _ _ h.1.1.1.0,
        scan_digits 1 4 e _ _ h.1.1.1.1.0,
      )
      refl
