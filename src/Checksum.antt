-- ===== src/Checksum.antt =====
-- The Internet checksum of ip/checksum.hpp, and `notify` of net/ip/icmp6_ra_packet.hpp, which fills it
-- in. What is summed is a list of the 16-bit words that the memory holds, in the host's order.
pub mod Ones
use odi_mm.Base.{
  ℕ, zero, suc, ◌+◌, ◌-◌, ◌*◌, ◌/◌, ◌%◌, ◌^◌, Bool, List, [], ◌∷◌, ◌++◌, length, ltb, nat_beq, not,
  if◌then◌else◌,
}
use odi_mm.Run.{Run, done, threw, ◌>>=◌}

-- The loop over the words, on 32 bits.
unfoldable pub add_words : ℕ → List ℕ → ℕ
add_words sum [] = sum
add_words sum (w ∷ ws) = add_words ((sum + w) % 2 ^ 32) ws

-- `while (sum >> 16)`, on fuel.
unfoldable pub fold_carries : ℕ → ℕ → ℕ
fold_carries zero sum = sum
fold_carries (suc fuel) sum =
    let next = fold_carries fuel (sum % 65536 + sum / 65536) in if ltb sum 65536 then sum else next

-- `update(const uint16*, size_t)`: two rounds are enough for 32 bits.
unfoldable pub update : ℕ → List ℕ → ℕ
unfolding add_words fold_carries
update sum ws = fold_carries 2 (add_words sum ws) % 65536

-- The words of an even number of bytes, on a little-endian host.
unfoldable pub words : List ℕ → List ℕ
words [] = []
words (a ∷ []) = []
words (a ∷ b ∷ bytes) = (b * 256 + a) ∷ words bytes

-- `update(const void*, size_t)`
unfoldable pub update_bytes : ℕ → List ℕ → Run ℕ
unfolding update words
update_bytes sum bytes =
    if not (nat_beq (length bytes % 2) 0) then threw else done (update sum (words bytes))

-- `final`
unfoldable pub final : ℕ → ℕ
final sum = 65535 - sum

-- The words of a header whose second one is the checksum.
pub record Header : Type 0 where
  pub type_code : ℕ
  pub checksum : ℕ
  pub rest : List ℕ

abbrev pub header_words : Header → List ℕ
header_words h = h.type_code ∷ h.checksum ∷ h.rest

-- `icmp6_ra_packet::notify` on the words of the pseudo header and of the options.
unfoldable pub notify : List ℕ → Header → List ℕ → Header
notify pseudo h options =
    let cleared = record h { checksum = 0 } in
    record h { checksum = final (update (update (update 0 pseudo) (header_words cleared)) options) }
