-- ===== src/Types/Text.antt =====
-- `prefix_v6::from_string` and the stream operator of net/ip/prefix.cpp. The texts of addresses
-- (boost) and of numbers (boost and the standard library) are parameters.
use odi_mm.Base.{
  ℕ, ◌≡◌, List, [], ◌∷◌, ◌++◌, Option, none, some, replicate, arith, nat_beq, if◌then◌else◌,
}
use odi_mm.Run.{Run, done, threw}
use odi_mm.Types.{Prefix, prefix_v6, IsPrefix}

-- `none` is an exception of the reader. The text of a number has no '/'.
pub record TextOps : Type 0 where
  pub address_text : List ℕ → List ℕ
  pub address_of : List ℕ → Option (List ℕ)
  pub number_text : ℕ → List ℕ
  pub number_of : List ℕ → Option ℕ

-- What stands before and behind the last '/'.
unfoldable pub split_last : List ℕ → Option (List ℕ × List ℕ)
split_last [] = none
split_last (c ∷ cs) = elim (split_last cs) [
  | some (front, rear) ↦ some (c ∷ front, rear)
  | none ↦ if nat_beq c 47 then some ([], cs) else none
]

split_last-slash :
    (front rear : List ℕ)
    → split_last rear ≡ none
    → split_last (front ++ 47 ∷ rear) ≡ some (front, rear)
unfolding split_last
split_last-slash [] rear h = ground (arith, h)
split_last-slash (c ∷ front) rear h = ground (arith, split_last-slash front rear h)

module _ ⦃ops : TextOps⦄ where
  unfoldable pub prefix_from_string : List ℕ → Run Prefix
  unfolding split_last
  prefix_from_string text = elim (split_last text) [
    | none ↦ done (prefix_v6 (replicate 16 0) 0)
    | some (front, rear) ↦ elim (ops.address_of front) [
      | none ↦ threw
      | some addr ↦ elim (ops.number_of rear) [
        | none ↦ threw
        | some plen ↦ done (prefix_v6 addr plen)
      ]
    ]
  ]

  -- `operator<<`
  unfoldable pub prefix_to_string : Prefix → List ℕ
  prefix_to_string p = ops.address_text p.bytes ++ 47 ∷ ops.number_text p.length

  -- A prefix is read back from its text, when its address and its length are and the text of the
  -- length has no '/'.
  pub prefix_from_string-prefix_to_string :
      (p : Prefix)
      → IsPrefix p
      → ops.address_of (ops.address_text p.bytes) ≡ some p.bytes
      → ops.number_of (ops.number_text p.length) ≡ some p.length
      → split_last (ops.number_text p.length) ≡ none
      → prefix_from_string (prefix_to_string p) ≡ done p
  unfolding prefix_from_string prefix_to_string prefix_v6
  prefix_from_string-prefix_to_string p valid a n s =
      rw
        (
          prefix_from_string,
          prefix_to_string,
          split_last-slash (ops.address_text p.bytes) (ops.number_text p.length) s,
          a,
          n,
        )
        (ground (arith, valid.short))
