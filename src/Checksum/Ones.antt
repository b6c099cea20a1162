-- ===== src/Checksum/Ones.antt =====
-- The checksum of ip/checksum.hpp is the sum in ones' complement.
use odi_mm.Base.{
  ℕ, ◌+◌, ◌-◌, ◌*◌, ◌%◌, ◌^◌, ◌≤◌, ◌<◌, ◌≡◌, refl, ap, ◌∙◌, All, List, [], ◌∷◌, length, arith,
  nat_beq, if◌then◌else◌,
}
use odi_mm.Checksum.{add_words, fold_carries, update, final, Header, header_words, notify}

-- The sum of the words, without a bound.
abbrev pub total : List ℕ → ℕ
total [] = 0
total (w ∷ ws) = w + total ws

-- Ones' complement: the rest modulo 65535, with 65535 for 0 unless nothing was added.
abbrev pub ones : ℕ → ℕ
ones n = if nat_beq n 0 then 0 else (n - 1) % 65535 + 1

abbrev pub IsWords : List ℕ → Type 0
IsWords ws = All (λ w. w < 65536) ws

total-bound : (ws : List ℕ) → IsWords ws → total ws ≤ 65535 * length ws
total-bound [] v = omega arith
total-bound (w ∷ ws) v = omega (arith, v.0, total-bound ws v.1)

add_words-total :
    (sum : ℕ) (ws : List ℕ) → sum + total ws < 2 ^ 32 → add_words sum ws ≡ sum + total ws
unfolding add_words
add_words-total sum [] h = omega arith
add_words-total sum (w ∷ ws) h =
    let small : (sum + w) % 2 ^ 32 ≡ sum + w = omega (arith, h) in
    rw (add_words, small) (add_words-total (sum + w) ws (omega (arith, h)) ∙ omega arith)

fold_carries-ones : (n : ℕ) → n < 2 ^ 32 → fold_carries 2 n ≡ ones n
unfolding fold_carries
fold_carries-ones n h = ground arith

ones-bound : (n : ℕ) → ones n ≤ 65535
ones-bound n = ground arith

ones-ones : (a b : ℕ) → ones (ones a + b) ≡ ones (a + b)
ones-ones a b = ground arith

ones-complement : (n : ℕ) → ones (n + (65535 - ones n)) ≡ 65535
ones-complement n = ground arith

-- The checksum of words that are added to a sum, when there are few enough for 32 bits, is the sum
-- of all in ones' complement.
pub update-ones :
    (sum : ℕ) (ws : List ℕ) → sum + total ws < 2 ^ 32 → update sum ws ≡ ones (sum + total ws)
unfolding update
update-ones sum ws h =
    let whole : ones (sum + total ws) % 65536 ≡ ones (sum + total ws) =
      omega (arith, ones-bound (sum + total ws)) in
    rw (update, add_words-total sum ws h, fold_carries-ones (sum + total ws) h) whole

-- What the three updates of a packet come to.
module _ (pseudo middle options : List ℕ)
    (v : total pseudo + total middle + total options < 2 ^ 31) where
  packet-ones :
      update (update (update 0 pseudo) middle) options
      ≡ ones (total pseudo + (total middle + total options))
  packet-ones =
      let p = ones-bound (total pseudo) in
      let first : update 0 pseudo ≡ ones (total pseudo) =
        update-ones 0 pseudo (omega (arith, v)) ∙ ap ones (omega arith) in
      let second : update (ones (total pseudo)) middle ≡ ones (total pseudo + total middle) =
        update-ones (ones (total pseudo)) middle (omega (arith, v, p))
        ∙ ones-ones (total pseudo) (total middle) in
      let q = ones-bound (total pseudo + total middle) in
      rw (first, second)
        (update-ones (ones (total pseudo + total middle)) options (omega (arith, v, q))
          ∙ ones-ones (total pseudo + total middle) (total options)
          ∙ ap ones (omega arith))

filled_in :
    (pseudo options : List ℕ) (h : Header)
    → header_words (notify pseudo h options)
      ≡ h.type_code
        ∷ final (update (update (update 0 pseudo) (h.type_code ∷ 0 ∷ h.rest)) options)
        ∷ h.rest
unfolding notify
filled_in pseudo options h = refl

final-minus : (n : ℕ) → final n ≡ 65535 - n
unfolding final
final-minus n = refl

-- A router advertisement of at most 32768 words whose checksum `notify` has filled in is valid: its
-- words, with those of the pseudo header, add up to 65535 in ones' complement.
pub notify-verifies :
    (pseudo options : List ℕ) (h : Header)
    → IsWords pseudo
    → IsWords (header_words h)
    → IsWords options
    → length pseudo + length (header_words h) + length options ≤ 32768
    → update (update (update 0 pseudo) (header_words (notify pseudo h options))) options ≡ 65535
notify-verifies pseudo options h vp vh vo few =
    let p = total-bound pseudo vp in
    let r = total-bound h.rest vh.1.1 in
    let o = total-bound options vo in
    let t = vh.0 in
    let n = total pseudo + (h.type_code + total h.rest + total options) in
    let c : ℕ = 65535 - ones n in
    let cleared : update (update (update 0 pseudo) (h.type_code ∷ 0 ∷ h.rest)) options ≡ ones n =
      packet-ones pseudo (h.type_code ∷ 0 ∷ h.rest) options (omega (arith, p, r, o, t, few))
      ∙ ap ones (omega arith) in
    let words : header_words (notify pseudo h options) ≡ h.type_code ∷ c ∷ h.rest =
      filled_in pseudo options h
      ∙ ap (λ x. h.type_code ∷ x ∷ h.rest) (ap final cleared ∙ final-minus (ones n)) in
    ap (λ ws. update (update (update 0 pseudo) ws) options) words
    ∙ packet-ones pseudo (h.type_code ∷ c ∷ h.rest) options (omega (arith, p, r, o, t, few))
    ∙ ap ones (omega arith)
    ∙ ones-complement n
