-- ===== src/Rbtree/Table/Keys.antt =====
-- The sorted list of the elements of the container of inc/opmip/rbtree.hpp, which its operations are
-- compared with.
use odi_mm.Base.{
  ◌≡◌, refl, ap, inl, inr, true, false, List, [], ◌∷◌, ◌++◌, Option, none, some, All, All-imp,
  All-split, arith, Bool-cases, if◌then◌else◌,
}
use odi_mm.Rbtree.Table.{Keyed}

module _ {ℓ κ} {A : Type ℓ} {K : Type κ} (keyed : Keyed A K) where
  abbrev pub Before : K → A → Type 0
  Before k a = keyed.less k (keyed.key a) ≡ true

  abbrev pub Behind : K → A → Type 0
  Behind k a = keyed.less (keyed.key a) k ≡ true

  abbrev pub IsSorted : List A → Type 0
  IsSorted [] = Unit {0}
  IsSorted (a ∷ xs) = All (Before (keyed.key a)) xs × IsSorted xs

  -- The sorted list as a container.
  unfoldable pub sorted_lookup : K → List A → Option A
  sorted_lookup k [] = none
  sorted_lookup k (a ∷ xs) =
      if keyed.less k (keyed.key a)
      then none
      else if keyed.less (keyed.key a) k
      then sorted_lookup k xs
      else some a

  unfoldable pub sorted_add : A → List A → List A
  sorted_add x [] = x ∷ []
  sorted_add x (a ∷ xs) =
      if keyed.less (keyed.key x) (keyed.key a)
      then x ∷ a ∷ xs
      else if keyed.less (keyed.key a) (keyed.key x)
      then a ∷ sorted_add x xs
      else a ∷ xs

  pub IsSorted-split :
      (xs : List A) (a : A) (ys : List A)
      → IsSorted (xs ++ a ∷ ys)
      → All (Behind (keyed.key a)) xs × IsSorted xs × All (Before (keyed.key a)) ys × IsSorted ys
  IsSorted-split [] a ys h = (tt, tt, h.0, h.1)
  IsSorted-split (x ∷ xs) a ys h =
      let (behind, sorted, ahead, rest) = IsSorted-split xs a ys h.1 in
      let (low, mid, high) = All-split (Before (keyed.key x)) xs a ys h.0 in
      ((mid, behind), (low, sorted), ahead, rest)

  -- What stands before an element is before all that is behind the element.
  pub Behind-trans :
      (a : A) (k : K) (xs : List A) → Behind k a → All (Behind (keyed.key a)) xs → All (Behind k) xs
  Behind-trans a k xs h =
      All-imp (Behind (keyed.key a)) (Behind k)
        (λ x l. keyed.less_trans (keyed.key x) (keyed.key a) k l h) xs

  pub not_before : (i j : K) → keyed.less i j ≡ true → keyed.less j i ≡ false
  not_before i j h = elim (Bool-cases (keyed.less j i)) [
    | inl k ↦ absurd (cc (keyed.less_trans i j i h k, keyed.less_irrefl i))
    | inr k ↦ k
  ]

  pub sorted_lookup_left :
      (k : K) (xs : List A) (a : A) (ys : List A)
      → Before k a
      → sorted_lookup k (xs ++ a ∷ ys) ≡ sorted_lookup k xs
  unfolding sorted_lookup
  sorted_lookup_left k [] a ys h = rw h
  sorted_lookup_left k (x ∷ xs) a ys h = ground (arith, sorted_lookup_left k xs a ys h)

  pub sorted_lookup-Behind :
      (k : K) (xs ys : List A) → All (Behind k) xs → sorted_lookup k (xs ++ ys) ≡ sorted_lookup k ys
  unfolding sorted_lookup
  sorted_lookup-Behind k [] ys h = refl
  sorted_lookup-Behind k (x ∷ xs) ys h =
      rw (not_before (keyed.key x) k h.0, h.0) (sorted_lookup-Behind k xs ys h.1)

  pub sorted_add_left :
      (x : A) (xs : List A) (a : A) (ys : List A)
      → Before (keyed.key x) a
      → sorted_add x (xs ++ a ∷ ys) ≡ sorted_add x xs ++ a ∷ ys
  unfolding sorted_add
  sorted_add_left x [] a ys h = rw h
  sorted_add_left x (b ∷ xs) a ys h = ground (arith, sorted_add_left x xs a ys h)

  pub sorted_add-Behind :
      (x : A) (xs ys : List A)
      → All (Behind (keyed.key x)) xs
      → sorted_add x (xs ++ ys) ≡ xs ++ sorted_add x ys
  unfolding sorted_add
  sorted_add-Behind x [] ys h = refl
  sorted_add-Behind x (b ∷ xs) ys h =
      rw (not_before (keyed.key b) (keyed.key x) h.0, h.0)
        (ap (◌∷◌ b) (sorted_add-Behind x xs ys h.1))
