-- ===== src/Rbtree.antt =====
-- The red-black tree of lib/opmip/rbtree_hook.cpp. A pointer to a hook is a position: the subtree
-- below the pointer and the path from it to the root, so that `get_parent` is the first step of the
-- path and what `set_parent` and `*root` keep in step is one value. A subtree is `tip` where the
-- pointer is null, and reading through it is undefined.
pub mod Invariant
pub mod Insertion
pub mod Removal
pub mod Walk
pub mod Table
pub mod Depth
use odi_mm.Base.{
  Bool, true, false, not, ◌&&◌, List, [], ◌∷◌, ◌++◌, Option, none, some, if◌then◌else◌,
}
use odi_mm.Run.{Run, done, asserted, undefined, ◌>>=◌}

pub data Color : Type 0 where
  red : Color
  black : Color

pub data Tree {ℓ} (A : Type ℓ) : Type ℓ where
  tip : Tree A
  node : Color → Tree A → A → Tree A → Tree A

-- A step to the parent, with its color, its element and its other child.
pub data Step {ℓ} (A : Type ℓ) : Type ℓ where
  left_of : Color → A → Tree A → Step A
  right_of : Tree A → Color → A → Step A

abbrev pub is_black_color : Color → Bool
is_black_color red = false
is_black_color black = true

module _ {ℓ} {A : Type ℓ} where
  -- `p && p->_color == red`
  abbrev pub is_red : Tree A → Bool
  is_red tip = false
  is_red (node red l a r) = true
  is_red (node black l a r) = false

  abbrev pub paint : Color → Tree A → Tree A
  paint c tip = tip
  paint c (node d l a r) = node c l a r

  abbrev pub plug : Tree A → Step A → Tree A
  plug t (left_of c a s) = node c t a s
  plug t (right_of s c a) = node c s a t

  abbrev pub step_color : Step A → Color
  step_color (left_of c a s) = c
  step_color (right_of s c a) = c

  abbrev pub sibling : Step A → Tree A
  sibling (left_of c a s) = s
  sibling (right_of s c a) = s

  -- A change of the color of the sibling.
  abbrev pub paint_sibling : Color → Step A → Step A
  paint_sibling d (left_of c a s) = left_of c a (paint d s)
  paint_sibling d (right_of s c a) = right_of (paint d s) c a

  -- The whole tree around a position.
  unfoldable pub zip : Tree A → List (Step A) → Tree A
  zip t [] = t
  zip t (s ∷ path) = zip (plug t s) path

  unfoldable pub rotate_left : Tree A → Run (Tree A)
  rotate_left tip = undefined
  rotate_left (node c a x tip) = undefined
  rotate_left (node c a x (node d b y e)) = done (node d (node c a x b) y e)

  unfoldable pub rotate_right : Tree A → Run (Tree A)
  rotate_right tip = undefined
  rotate_right (node c tip y e) = undefined
  rotate_right (node c (node d a x b) y e) = done (node d a x (node c b y e))

  -- The rotations of an insertion, below the parent and the grandparent.
  unfoldable pub turn : Tree A → Step A → Step A → Run (Tree A)
  unfolding rotate_left rotate_right ◌>>=◌
  turn n (left_of c x s) (left_of d y u) = rotate_right (node red (node black n x s) y u)
  turn n (right_of s c x) (left_of d y u) =
      rotate_left (node c s x n) >>= λ t. rotate_right (node red (paint black t) y u)
  turn n (right_of s c x) (right_of u d y) = rotate_left (node red u y (node black s x n))
  turn n (left_of c x s) (right_of u d y) =
      rotate_right (node c n x s) >>= λ t. rotate_left (node red u y (paint black t))

  -- The loop of `insert`. The grandparent of a child of the root is null.
  unfoldable pub insert_loop : Tree A → List (Step A) → Run (Tree A)
  unfolding zip turn ◌>>=◌
  insert_loop n [] = done (paint black n)
  insert_loop n (p ∷ []) =
      if is_black_color (step_color p) then done (zip n (p ∷ [])) else undefined
  insert_loop n (p ∷ g ∷ path) =
      let parent = paint black (plug (paint red n) p) in
      let above = insert_loop (paint red (plug parent (paint_sibling black g))) path in
      let turned = turn (paint red n) p g >>= λ t. done (zip t path) in
      if is_black_color (step_color p)
      then done (zip n (p ∷ g ∷ path))
      else if is_red (sibling g)
      then above
      else turned

  -- `rbtree_hook::insert`, where the search has left the null pointer at the end of `path`.
  unfoldable pub insert : A → List (Step A) → Run (Tree A)
  unfolding insert_loop
  insert a path = insert_loop (node red tip a tip) path
