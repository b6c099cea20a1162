-- ===== src/Rbtree/Table/Laws.antt =====
-- `find` of inc/opmip/rbtree.hpp against the sorted list of the elements.
use odi_mm.Base.{
  ◌≡◌, refl, ◌∙◌, inl, inr, false, List, [], ◌∷◌, ◌++◌, Option, none, some, All, Bool-cases,
}
use mathlib.Core.Path.{subst}
use odi_mm.Rbtree.{Tree, tip, node, Step, left_of, right_of, zip}
use odi_mm.Rbtree.Invariant.{inorder}
use odi_mm.Rbtree.Removal.{Hook}
use odi_mm.Rbtree.Walk.Order.{whole}
use odi_mm.Rbtree.Table.{Keyed, find_from, find}
use odi_mm.Rbtree.Table.Keys.{
  Behind, IsSorted, sorted_lookup, IsSorted-split, Behind-trans, sorted_lookup_left,
  sorted_lookup-Behind, not_before,
}

module _ {ℓ κ} {A : Type ℓ} {K : Type κ} (keyed : Keyed A K) where
  -- `m` is the hook in `t` of the element with the key `k` in `xs`, or none where there is none.
  pub data Found (m : Option (Hook A)) (t : Tree A) (k : K) (xs : List A) : Type ℓ where
    missing : m ≡ none → sorted_lookup keyed k xs ≡ none → Found m t k xs
    found :
        (h : Hook A)
        → m ≡ some h
        → whole h ≡ t
        → sorted_lookup keyed k xs ≡ some h.elem
        → Found m t k xs

  Found-at :
      {m : Option (Hook A)} {t : Tree A} {k : K} {xs ys : List A}
      → sorted_lookup keyed k ys ≡ sorted_lookup keyed k xs
      → Found m t k xs
      → Found m t k ys
  Found-at e (missing n o) = missing n (e ∙ o)
  Found-at e (found h n w o) = found h n w (e ∙ o)

  -- The element at the root, which is neither before the key nor behind it.
  pub sorted_lookup_here :
      (k : K) (xs : List A) (a : A) (ys : List A)
      → All (Behind keyed (keyed.key a)) xs
      → keyed.less k (keyed.key a) ≡ false
      → keyed.less (keyed.key a) k ≡ false
      → sorted_lookup keyed k (xs ++ a ∷ ys) ≡ some a
  unfolding sorted_lookup
  sorted_lookup_here k xs a ys h p q =
      let same : keyed.key a ≡ k = keyed.less_total (keyed.key a) k q p in
      sorted_lookup-Behind keyed k xs (a ∷ ys) (subst (λ j. All (Behind keyed j) xs) same h)
      ∙ rw (p, q) refl

  pub sorted_lookup_right :
      (k : K) (xs : List A) (a : A) (ys : List A)
      → All (Behind keyed (keyed.key a)) xs
      → Behind keyed k a
      → sorted_lookup keyed k (xs ++ a ∷ ys) ≡ sorted_lookup keyed k ys
  unfolding sorted_lookup
  sorted_lookup_right k xs a ys h q =
      sorted_lookup-Behind keyed k xs (a ∷ ys) (Behind-trans keyed a k xs q h)
      ∙ rw (not_before keyed (keyed.key a) k q, q) refl

  pub find_from-Found :
      (k : K) (t : Tree A) (path : List (Step A))
      → IsSorted keyed (inorder t)
      → Found (find_from keyed k t path) (zip t path) k (inorder t)
  unfolding find_from sorted_lookup zip
  find_from-Found k tip path s = missing refl refl
  find_from-Found k (node c l a r) path s =
      let (behind, low, ahead, high) = IsSorted-split keyed (inorder l) a (inorder r) s in
      elim (Bool-cases (keyed.less k (keyed.key a))) [
        | inl p ↦ rw p (
            Found-at (sorted_lookup_left keyed k (inorder l) a (inorder r) p)
              (find_from-Found k l (left_of c a r ∷ path) low))
        | inr p ↦ elim (Bool-cases (keyed.less (keyed.key a) k)) [
          | inl q ↦
              rw (p, q)
                (Found-at (sorted_lookup_right k (inorder l) a (inorder r) behind q)
                  (find_from-Found k r (right_of l c a ∷ path) high))
          | inr q ↦
              rw (p, q)
                (found (record { color = c; left = l; elem = a; right = r; path = path }) refl refl
                  (sorted_lookup_here k (inorder l) a (inorder r) behind p q))
        ]
      ]

  -- `find` gives the element with the key, as the list does.
  pub find-Found :
      (k : K) (t : Tree A) → IsSorted keyed (inorder t) → Found (find keyed k t) t k (inorder t)
  unfolding find zip
  find-Found k t s = find_from-Found k t [] s
