-- ===== src/Rbtree/Table/Contents.antt =====
-- What the sorted list of the elements of inc/opmip/rbtree.hpp holds after an element came or went.
use odi_mm.Base.{
  ◌≡◌, ◌≢◌, refl, sym, inl, inr, List, [], ◌∷◌, ◌++◌, append_assoc, Option, none, some, All,
  All-imp, All-split, All-append, arith, Bool-cases,
}
use odi_mm.Rbtree.{Tree}
use odi_mm.Rbtree.Invariant.{inorder, IsRedBlack, Yields, Yields-at}
use odi_mm.Rbtree.Removal.{Hook}
use odi_mm.Rbtree.Removal.Whole.{remove_at-Yields}
use odi_mm.Rbtree.Walk.Order.{whole, rest, front}
use odi_mm.Rbtree.Table.{Keyed, find, remove}
use odi_mm.Rbtree.Table.Keys.{Before, IsSorted, sorted_lookup, sorted_add, not_before}
use odi_mm.Rbtree.Table.Laws.{missing, found, find-Found}

abbrev pub elem_of {ℓ} : {A : Type ℓ} → Option (Hook A) → Option A
elem_of none = none
elem_of (some h) = some h.elem

module _ {ℓ κ} {A : Type ℓ} {K : Type κ} (keyed : Keyed A K) where
  -- The element that `find` gives.
  abbrev pub elem_at : K → Tree A → Option A
  elem_at k t = elem_of (find keyed k t)

  pub elem_at-sorted_lookup :
      (k : K) (t : Tree A)
      → IsSorted keyed (inorder t)
      → elem_at k t ≡ sorted_lookup keyed k (inorder t)
  elem_at-sorted_lookup k t s = elim (find-Found keyed k t s) [
    | missing e o ↦ rw e (sym o)
    | found h e w o ↦ rw e (sym o)
  ]

  pub sorted_lookup-sorted_add_self :
      (x : A) (xs : List A)
      → sorted_lookup keyed (keyed.key x) xs ≡ none
      → sorted_lookup keyed (keyed.key x) (sorted_add keyed x xs) ≡ some x
  unfolding sorted_lookup sorted_add
  sorted_lookup-sorted_add_self x [] h = rw (keyed.less_irrefl (keyed.key x)) refl
  sorted_lookup-sorted_add_self x (a ∷ xs) h = ground (
    arith,
    keyed.less_irrefl (keyed.key x),
    not_before keyed (keyed.key a) (keyed.key x),
    sorted_lookup-sorted_add_self x xs,
    h,
  )

  pub sorted_lookup-sorted_add_other :
      (k : K) (x : A) (xs : List A)
      → k ≢ keyed.key x
      → sorted_lookup keyed k (sorted_add keyed x xs) ≡ sorted_lookup keyed k xs
  unfolding sorted_lookup sorted_add
  sorted_lookup-sorted_add_other k x [] n = ground (arith, keyed.less_total k (keyed.key x))
  sorted_lookup-sorted_add_other k x (a ∷ xs) n = ground (
    arith,
    keyed.less_total k (keyed.key x),
    keyed.less_trans k (keyed.key x) (keyed.key a),
    sorted_lookup-sorted_add_other k x xs,
  )

  pub sorted_add_present :
      (x : A) (a : A) (xs : List A)
      → sorted_lookup keyed (keyed.key x) xs ≡ some a
      → sorted_add keyed x xs ≡ xs
  unfolding sorted_lookup sorted_add
  sorted_add_present x a [] h = absurd (cc h)
  sorted_add_present x a (b ∷ xs) h = ground (arith, sorted_add_present x a xs, h)

  All-sorted_add :
      (P : A → Type 0) (x : A) (xs : List A) → P x → All P xs → All P (sorted_add keyed x xs)
  unfolding sorted_add
  All-sorted_add P x [] p h = (p, tt)
  All-sorted_add P x (a ∷ xs) p h = ground (arith, All-sorted_add P x xs)

  pub sorted_add-IsSorted :
      (x : A) (xs : List A) → IsSorted keyed xs → IsSorted keyed (sorted_add keyed x xs)
  unfolding sorted_add
  sorted_add-IsSorted x [] h = (tt, tt)
  sorted_add-IsSorted x (a ∷ xs) h = elim (Bool-cases (keyed.less (keyed.key x) (keyed.key a))) [
    | inl p ↦ rw p (
      (
        p,
        All-imp (Before keyed (keyed.key a)) (Before keyed (keyed.key x))
            (λ b q. keyed.less_trans (keyed.key x) (keyed.key a) (keyed.key b) p q) xs h.0,
      ),
      (h.0, h.1),
    )
    | inr p ↦ elim (Bool-cases (keyed.less (keyed.key a) (keyed.key x))) [
      | inl q ↦
          rw (p, q)
            (All-sorted_add (Before keyed (keyed.key a)) x xs q h.0, sorted_add-IsSorted x xs h.1)
      | inr q ↦ rw (p, q) h
    ]
  ]

  pub sorted_lookup-Before :
      (k : K) (xs : List A) → All (Before keyed k) xs → sorted_lookup keyed k xs ≡ none
  unfolding sorted_lookup
  sorted_lookup-Before k [] h = refl
  sorted_lookup-Before k (a ∷ xs) h = rw (h.0) refl

  pub sorted_lookup_gone :
      (k : K) (xs : List A) (a : A) (ys : List A)
      → k ≢ keyed.key a
      → All (Before keyed (keyed.key a)) ys
      → sorted_lookup keyed k (xs ++ ys) ≡ sorted_lookup keyed k (xs ++ a ∷ ys)
  unfolding sorted_lookup
  sorted_lookup_gone k [] a ys n h = elim (Bool-cases (keyed.less k (keyed.key a))) [
    | inl p ↦ rw p (
        sorted_lookup-Before k ys (
          All-imp (Before keyed (keyed.key a)) (Before keyed k)
            (λ b q. keyed.less_trans k (keyed.key a) (keyed.key b) p q) ys h))
    | inr p ↦ elim (Bool-cases (keyed.less (keyed.key a) k)) [
      | inl q ↦ rw (p, q) refl
      | inr q ↦ absurd (n (keyed.less_total k (keyed.key a) p q))
    ]
  ]
  sorted_lookup_gone k (x ∷ xs) a ys n h = ground (arith, sorted_lookup_gone k xs a ys n h)

  pub IsSorted-join :
      (xs : List A) (a : A) (ys : List A)
      → IsSorted keyed (xs ++ a ∷ ys)
      → IsSorted keyed (xs ++ ys)
  IsSorted-join [] a ys h = h.1
  IsSorted-join (x ∷ xs) a ys h =
      let (low, mid, high) = All-split (Before keyed (keyed.key x)) xs a ys h.0 in
      (All-append (Before keyed (keyed.key x)) xs ys low high, IsSorted-join xs a ys h.1)

  pub remove-Yields : (h : Hook A) → IsRedBlack (whole h) → Yields (remove h) (front h ++ rest h)
  unfolding remove
  remove-Yields h k =
      Yields-at (remove_at-Yields h.color h.left h.elem h.right h.path k) refl (simp append_assoc)
