-- ===== src/Rbtree/Removal.antt =====
-- `rbtree_hook::remove` and `remove_color` of lib/opmip/rbtree_hook.cpp.
pub mod Rounds
pub mod Whole
use odi_mm.Base.{Bool, true, false, not, ◌&&◌, List, [], ◌∷◌, ◌++◌, if◌then◌else◌}
use odi_mm.Run.{Run, done, threw, asserted, undefined, ◌>>=◌}
use odi_mm.Rbtree.{
  Color, red, black, Tree, tip, node, Step, left_of, right_of, is_black_color, is_red, paint, plug,
  zip, rotate_left, rotate_right,
}

-- What a round of `remove_color` leaves where the parent was: the loop ends, or goes on from there.
pub data Round {ℓ} (A : Type ℓ) : Type ℓ where
  settled : Tree A → Round A
  up : Tree A → Round A

-- A hook that is in a tree.
pub record Hook {ℓ} (A : Type ℓ) : Type ℓ where
  pub color : Color
  pub left : Tree A
  pub elem : A
  pub right : Tree A
  pub path : List (Step A)

module _ {ℓ} {A : Type ℓ} where
  abbrev pub nephews_black : Tree A → Tree A → Bool
  nephews_black l r = not (is_red l) && not (is_red r)

  -- The last rotation below a black sibling with a red outer child, which takes the color of the
  -- parent `x`.
  unfoldable pub finish_left : Color → Tree A → A → Tree A → Run (Tree A)
  unfolding rotate_left
  finish_left c n x tip = undefined
  finish_left c n x (node d sl y sr) = rotate_left (node black n x (node c sl y (paint black sr)))

  unfoldable pub finish_right : Color → Tree A → A → Tree A → Run (Tree A)
  unfolding rotate_right
  finish_right c tip x n = undefined
  finish_right c (node d sl y sr) x n = rotate_right (node black (node c (paint black sl) y sr) x n)

  -- A black sibling `y` with a red child, across a left child `n` and across a right one.
  unfoldable pub absorb_left : Color → Tree A → A → Tree A → A → Tree A → Run (Tree A)
  unfolding rotate_right finish_left ◌>>=◌
  absorb_left c n x sl y sr =
      (if is_red sr
        then done (node black sl y sr)
        else rotate_right (node red (paint black sl) y sr))
      >>= finish_left c n x

  unfoldable pub absorb_right : Color → Tree A → A → Tree A → A → Tree A → Run (Tree A)
  unfolding rotate_left finish_right ◌>>=◌
  absorb_right c sl y sr x n =
      (if is_red sl
        then done (node black sl y sr)
        else rotate_left (node red sl y (paint black sr)))
      >>= λ s. finish_right c s x n

  -- One round of the loop with `n` on the left of the parent. A red sibling goes up by a rotation,
  -- and the parent is red below it.
  unfoldable pub round_left : Color → Tree A → A → Tree A → Run (Round A)
  unfolding absorb_left ◌>>=◌
  round_left c n x tip = undefined
  round_left c n x (node red tip y sr) = undefined
  round_left c n x (node red (node red a z b) y sr) =
      done (settled (node black (node red n x (node red a z b)) y sr))
  round_left c n x (node red (node black a z b) y sr) =
      if nephews_black a b
      then done (settled (node black (node black n x (node red a z b)) y sr))
      else (absorb_left red n x a z b >>= λ t. done (settled (node black t y sr)))
  round_left c n x (node black a y b) =
      if nephews_black a b
      then if is_black_color c
        then done (up (node black n x (node red a y b)))
        else done (settled (node black n x (node red a y b)))
      else (absorb_left c n x a y b >>= λ t. done (settled t))

  unfoldable pub round_right : Color → Tree A → A → Tree A → Run (Round A)
  unfolding absorb_right ◌>>=◌
  round_right c tip x n = undefined
  round_right c (node red sl y tip) x n = undefined
  round_right c (node red sl y (node red a z b)) x n =
      done (settled (node black sl y (node red (node red a z b) x n)))
  round_right c (node red sl y (node black a z b)) x n =
      if nephews_black a b
      then done (settled (node black sl y (node black (node red a z b) x n)))
      else (absorb_right red a z b x n >>= λ t. done (settled (node black sl y t)))
  round_right c (node black a y b) x n =
      if nephews_black a b
      then if is_black_color c
        then done (up (node black (node red a y b) x n))
        else done (settled (node black (node red a y b) x n))
      else (absorb_right c a y b x n >>= λ t. done (settled t))

  unfoldable pub round : Tree A → Step A → Run (Round A)
  unfolding round_left round_right
  round n (left_of c x s) = round_left c n x s
  round n (right_of s c x) = round_right c s x n

  -- The loop, with a black `n`.
  unfoldable pub remove_loop : Tree A → List (Step A) → Run (Tree A)
  unfolding zip round
  remove_loop n [] = done n
  remove_loop n (s ∷ path) = elim (round n s) [
    | done r ↦ elim r [ settled t ↦ done (zip t path) | up t ↦ remove_loop t path ]
    | threw ↦ threw
    | asserted ↦ asserted
    | undefined ↦ undefined
  ]

  unfoldable pub remove_color : Tree A → List (Step A) → Run (Tree A)
  unfolding zip remove_loop
  remove_color n path =
      let rest = remove_loop n path in if is_red n then done (zip (paint black n) path) else rest

  -- The end of `remove`, with the color that leaves the tree, and its assert.
  unfoldable pub take_out : Color → Tree A → List (Step A) → Run (Tree A)
  unfolding zip remove_color ◌>>=◌
  take_out c child path =
      (if is_black_color c then remove_color child path else done (zip child path)) >>= λ t.
      if is_red t then asserted else done t

  -- The loop to the left.
  unfoldable pub leftmost : Color → Tree A → A → Tree A → List (Step A) → Hook A
  leftmost c tip a r path = record { color = c; left = tip; elem = a; right = r; path = path }
  leftmost c (node d l b s) a r path = leftmost d l b s (left_of c a r ∷ path)

  -- `rbtree_hook::remove` on a hook of color `c` with the children `l` and `r`. With two children
  -- the next hook takes its place and its color.
  unfoldable pub remove_at : Color → Tree A → Tree A → List (Step A) → Run (Tree A)
  unfolding take_out leftmost
  remove_at c tip r path = take_out c r path
  remove_at c (node d l a s) tip path = take_out c (node d l a s) path
  remove_at c (node d l a s) (node e rl b rr) path =
      let h = leftmost e rl b rr [] in
      take_out h.color h.right (h.path ++ right_of (node d l a s) c h.elem ∷ path)
