-- ===== src/Sequence.antt =====
-- validate_sequence_number (pmip/lma.cpp, odimm/pmip/cmd.cpp): which 16-bit sequence numbers follow
-- one that was accepted. The operands are promoted to int, so `prev + 32768` does not wrap.
use odi_mm.Base.{
  ℕ, ◌+◌, ◌-◌, ◌%◌, ◌<◌, ◌≡◌, ◌↔◌, Bool, true, false, ◌&&◌, ◌||◌, arith, ltb, if◌then◌else◌,
}

unfoldable pub validate_sequence_number : ℕ → ℕ → Bool
validate_sequence_number prev current =
    if ltb prev 32768
    then ltb prev current && ltb current (prev + 32768)
    else ltb prev current || ltb current (prev - 32768)

-- On 16-bit numbers, a number is accepted exactly when it lies 1 to 32767 ahead of the last one,
-- counted modulo 65536.
pub validate_sequence_number_iff :
    (prev current : ℕ)
    → prev < 65536
    → current < 65536
    → (validate_sequence_number prev current ≡ true)
      ↔ ((0 < (current + 65536 - prev) % 65536) × ((current + 65536 - prev) % 65536 < 32768))
unfolding validate_sequence_number
validate_sequence_number_iff prev current hp hc = ((λ h. ground arith), (λ h. ground arith))

-- Of two 16-bit numbers at most one follows the other, and a number does not follow itself.
pub validate_sequence_number_asymm :
    (a b : ℕ)
    → a < 65536
    → b < 65536
    → validate_sequence_number a b ≡ true
    → validate_sequence_number b a ≡ false
unfolding validate_sequence_number
validate_sequence_number_asymm a b ha hb h = ground arith
