-- ===== src/Rbtree/Table.antt =====
-- The container of inc/opmip/rbtree.hpp. `Compare` is an order of the keys of the elements, as the
-- comparisons of the node database are. An iterator is the hook that it stands at, and the iterator
-- before the element is left out.
pub mod Keys
pub mod Laws
pub mod Insertion
pub mod Contents
pub mod Dispose
pub mod Refines
use odi_mm.Base.{◌≡◌, ◌⊎◌, Bool, true, false, List, [], ◌∷◌, Option, none, some, if◌then◌else◌}
use odi_mm.Run.{Run, done, undefined, ◌>>=◌}
use odi_mm.Rbtree.{Color, Tree, tip, node, Step, left_of, right_of, zip, insert}
use odi_mm.Rbtree.Removal.{Hook, remove_at, leftmost}
use odi_mm.Rbtree.Walk.{next, min, max}

-- An element with the order of its keys, which is strict and total.
pub record Keyed {ℓ κ} (A : Type ℓ) (K : Type κ) : Type (ℓ ⊔ κ) where
  pub key : A → K
  pub less : K → K → Bool
  pub less_irrefl : (k : K) → less k k ≡ false
  pub less_trans : (i j k : K) → less i j ≡ true → less j k ≡ true → less i k ≡ true
  pub less_total : (i j : K) → less i j ≡ false → less j i ≡ false → i ≡ j

module _ {ℓ} {A : Type ℓ} where
  -- `begin`; `none` is the iterator of an empty tree, and the one behind the last element.
  unfoldable pub begin : Tree A → Option (Hook A)
  unfolding leftmost
  begin tip = none
  begin (node c l a r) = some (leftmost c l a r [])

  -- `remove`
  unfoldable pub remove : Hook A → Run (Tree A)
  unfolding remove_at
  remove h = remove_at h.color h.left h.right h.path

module _ {ℓ κ} {A : Type ℓ} {K : Type κ} (keyed : Keyed A K) where
  -- The loop of `find`, and `end()` where it finds none.
  unfoldable pub find_from : K → Tree A → List (Step A) → Option (Hook A)
  find_from k tip path = none
  find_from k (node c l a r) path =
      let lower = find_from k l (left_of c a r ∷ path) in
      let higher = find_from k r (right_of l c a ∷ path) in
      if keyed.less k (keyed.key a)
      then lower
      else if keyed.less (keyed.key a) k
      then higher
      else some (record { color = c; left = l; elem = a; right = r; path = path })

  unfoldable pub find : K → Tree A → Option (Hook A)
  unfolding find_from
  find k t = find_from k t []

  -- The loop of `insert_unique`, with the tree and whether the element is in it now.
  unfoldable pub insert_unique_from : A → Tree A → List (Step A) → Run (Tree A × Bool)
  unfolding zip insert ◌>>=◌
  insert_unique_from x tip path = insert x path >>= λ t. done (t, true)
  insert_unique_from x (node c l a r) path =
      let lower = insert_unique_from x l (left_of c a r ∷ path) in
      let higher = insert_unique_from x r (right_of l c a ∷ path) in
      if keyed.less (keyed.key x) (keyed.key a)
      then lower
      else if keyed.less (keyed.key a) (keyed.key x)
      then higher
      else done (zip (node c l a r) path, false)

  unfoldable pub insert_unique : A → Tree A → Run (Tree A × Bool)
  unfolding insert_unique_from
  insert_unique x t = insert_unique_from x t []

  -- `insert_equal`
  unfoldable pub insert_equal_from : A → Tree A → List (Step A) → Run (Tree A)
  unfolding insert
  insert_equal_from x tip path = insert x path
  insert_equal_from x (node c l a r) path =
      let lower = insert_equal_from x l (left_of c a r ∷ path) in
      let higher = insert_equal_from x r (right_of l c a ∷ path) in
      if keyed.less (keyed.key x) (keyed.key a) then lower else higher

  unfoldable pub insert_equal : A → Tree A → Run (Tree A)
  unfolding insert_equal_from
  insert_equal x t = insert_equal_from x t []
