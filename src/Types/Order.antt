-- ===== src/Types/Order.antt =====
-- The comparisons of net/ip/prefix.hpp, which the ordered sets of prefixes rely on. Arrays of bytes
-- are compared from the first byte on.
use odi_mm.Base.{
  ℕ, ◌≡◌, refl, ◌⊎◌, inl, inr, Bool, true, false, ◌&&◌, ◌||◌, not, List, [], ◌∷◌, arith, ltb, ◌==◌,
  nat_eq, list_eq, list_beq, list_beq_iff, nat_beq, Bool-cases, eq_refl,
}
use odi_mm.Types.{Prefix, prefix_beq, prefix_beq_iff}

-- `<` of arrays of the same width, and of strings.
unfoldable pub bytes_lt : List ℕ → List ℕ → Bool
bytes_lt [] [] = false
bytes_lt [] (y ∷ ys) = true
bytes_lt (x ∷ xs) [] = false
bytes_lt (x ∷ xs) (y ∷ ys) = ltb x y || (nat_beq x y && bytes_lt xs ys)

-- `operator<`
unfoldable pub prefix_lt : Prefix → Prefix → Bool
prefix_lt p q = ltb p.length q.length || (p.length == q.length && bytes_lt p.bytes q.bytes)

-- `operator>`
unfoldable pub prefix_gt : Prefix → Prefix → Bool
prefix_gt p q = ltb q.length p.length || (p.length == q.length && bytes_lt q.bytes p.bytes)

-- `operator<=`
unfoldable pub prefix_le : Prefix → Prefix → Bool
prefix_le p q = ltb p.length q.length || (p.length == q.length && not (bytes_lt q.bytes p.bytes))

-- `operator>=`
unfoldable pub prefix_ge : Prefix → Prefix → Bool
prefix_ge p q = ltb q.length p.length || (p.length == q.length && not (bytes_lt p.bytes q.bytes))

-- `operator!=`
unfoldable pub prefix_ne : Prefix → Prefix → Bool
prefix_ne p q = not (p.length == q.length) && not (p.bytes == q.bytes)

pub bytes_lt_irrefl : (xs : List ℕ) → bytes_lt xs xs ≡ false
unfolding bytes_lt
bytes_lt_irrefl [] = refl
bytes_lt_irrefl (x ∷ xs) = ground (arith, bytes_lt_irrefl xs)

pub bytes_lt_trans :
    (xs ys zs : List ℕ) → bytes_lt xs ys ≡ true → bytes_lt ys zs ≡ true → bytes_lt xs zs ≡ true
unfolding bytes_lt
bytes_lt_trans [] [] zs h k = ground arith
bytes_lt_trans [] (y ∷ ys) [] h k = ground arith
bytes_lt_trans [] (y ∷ ys) (z ∷ zs) h k = refl
bytes_lt_trans (x ∷ xs) [] zs h k = ground arith
bytes_lt_trans (x ∷ xs) (y ∷ ys) [] h k = ground arith
bytes_lt_trans (x ∷ xs) (y ∷ ys) (z ∷ zs) h k = ground (arith, bytes_lt_trans xs ys zs)

bytes_lt_total :
    (xs ys : List ℕ) → bytes_lt xs ys ≡ false → list_beq xs ys ≡ false → bytes_lt ys xs ≡ true
unfolding bytes_lt list_beq
bytes_lt_total [] [] h k = ground arith
bytes_lt_total [] (y ∷ ys) h k = ground arith
bytes_lt_total (x ∷ xs) [] h k = refl
bytes_lt_total (x ∷ xs) (y ∷ ys) h k = ground (arith, bytes_lt_total xs ys)

pub bytes_lt_connected :
    (xs ys : List ℕ) → bytes_lt xs ys ≡ false → bytes_lt ys xs ≡ false → xs ≡ ys
bytes_lt_connected xs ys h k = elim (Bool-cases (list_beq xs ys)) [
  | inl e ↦ (list_beq_iff xs ys).0 e
  | inr e ↦ absurd (cc (bytes_lt_total xs ys h e, k))
]

-- No prefix is before itself.
prefix_lt_irrefl : (p : Prefix) → prefix_lt p p ≡ false
unfolding prefix_lt
prefix_lt_irrefl p = ground (arith, bytes_lt_irrefl p.bytes)

-- The order is transitive.
prefix_lt_trans :
    (p q r : Prefix) → prefix_lt p q ≡ true → prefix_lt q r ≡ true → prefix_lt p r ≡ true
unfolding prefix_lt
prefix_lt_trans p q r h k = ground (arith, bytes_lt_trans p.bytes q.bytes r.bytes)

-- Two prefixes of which neither is before the other are equal by `operator==`.
prefix_lt_total :
    (p q : Prefix) → prefix_lt p q ≡ false → prefix_beq p q ≡ false → prefix_lt q p ≡ true
unfolding prefix_lt prefix_beq
prefix_lt_total p q h k = ground (arith, bytes_lt_total p.bytes q.bytes)

-- Of two prefixes one is before the other, or they are the same prefix.
pub prefix_lt_connected : (p q : Prefix) → (prefix_lt p q ≡ true) ⊎ (p ≡ q) ⊎ (prefix_lt q p ≡ true)
prefix_lt_connected p q = elim (Bool-cases (prefix_lt p q)) [
  | inl h ↦ inl h
  | inr h ↦ elim (Bool-cases (prefix_beq p q)) [
    | inl k ↦ inr (inl ((prefix_beq_iff p q).0 k))
    | inr k ↦ inr (inr (prefix_lt_total p q h k))
  ]
]

-- `operator>` is `operator<` the other way round.
pub prefix_gt-prefix_lt : (p q : Prefix) → prefix_gt p q ≡ prefix_lt q p
unfolding prefix_gt prefix_lt
prefix_gt-prefix_lt p q = ground arith

-- `operator<=` holds when `operator>` does not.
pub prefix_le-prefix_gt : (p q : Prefix) → prefix_le p q ≡ not (prefix_gt p q)
unfolding prefix_le prefix_gt
prefix_le-prefix_gt p q = ground arith

-- `operator>=` holds when `operator<` does not.
pub prefix_ge-prefix_lt : (p q : Prefix) → prefix_ge p q ≡ not (prefix_lt p q)
unfolding prefix_ge prefix_lt
prefix_ge-prefix_lt p q = ground arith

-- Prefixes of the same bytes are never `!=`, whatever their lengths are.
pub prefix_ne-bytes : (p q : Prefix) → p.bytes ≡ q.bytes → prefix_ne p q ≡ false
unfolding prefix_ne
prefix_ne-bytes p q h = ground (arith, eq_refl p.bytes)
