-- ===== src/Rbtree/Walk.antt =====
-- `min`, `max`, `next` and `prev` of lib/opmip/rbtree_hook.cpp.
pub mod Order
use odi_mm.Base.{List, [], ◌∷◌, Option, none, some}
use odi_mm.Rbtree.{Color, Tree, tip, node, Step, left_of, right_of, plug}
use odi_mm.Rbtree.Removal.{Hook, leftmost}

module _ {ℓ} {A : Type ℓ} where
  -- The loop to the right.
  unfoldable pub rightmost : Color → Tree A → A → Tree A → List (Step A) → Hook A
  rightmost c l a tip path = record { color = c; left = l; elem = a; right = tip; path = path }
  rightmost c l a (node d s b r) path = rightmost d s b r (right_of l c a ∷ path)

  unfoldable pub min : Hook A → Hook A
  unfolding leftmost
  min h = leftmost h.color h.left h.elem h.right h.path

  unfoldable pub max : Hook A → Hook A
  unfolding rightmost
  max h = rightmost h.color h.left h.elem h.right h.path

  -- The loop over the parents of which the hook is the right child, and the parent behind them.
  unfoldable pub climb_right : Tree A → List (Step A) → Option (Hook A)
  climb_right t [] = none
  climb_right t (right_of s c a ∷ path) = climb_right (node c s a t) path
  climb_right t (left_of c a s ∷ path) =
      some (record { color = c; left = t; elem = a; right = s; path = path })

  unfoldable pub climb_left : Tree A → List (Step A) → Option (Hook A)
  climb_left t [] = none
  climb_left t (left_of c a s ∷ path) = climb_left (node c t a s) path
  climb_left t (right_of s c a ∷ path) =
      some (record { color = c; left = s; elem = a; right = t; path = path })

  unfoldable pub next : Hook A → Option (Hook A)
  unfolding leftmost climb_right
  next h = elim h.right [
    | tip ↦ climb_right (node h.color h.left h.elem h.right) h.path
    | node c l a r ↦ some (leftmost c l a r (right_of h.left h.color h.elem ∷ h.path))
  ]

  unfoldable pub prev : Hook A → Option (Hook A)
  unfolding rightmost climb_left
  prev h = elim h.left [
    | tip ↦ climb_left (node h.color h.left h.elem h.right) h.path
    | node c l a r ↦ some (rightmost c l a r (left_of h.color h.elem h.right ∷ h.path))
  ]
