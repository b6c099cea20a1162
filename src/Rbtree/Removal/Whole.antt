-- ===== src/Rbtree/Removal/Whole.antt =====
-- `remove` of lib/opmip/rbtree_hook.cpp on red-black trees.
use odi_mm.Base.{
  ℕ, zero, suc, ◌≡◌, refl, sym, ap, ◌∙◌, inl, inr, true, false, List, [], ◌∷◌, ◌++◌, append_assoc,
  append-nil, Bool-cases, if◌then◌else◌,
}
use mathlib.Core.Path.{subst}
use odi_mm.Run.{Run, done, asserted, ◌>>=◌}
use odi_mm.Rbtree.{
  Color, red, black, Tree, tip, node, Step, left_of, right_of, is_red, paint, plug, zip,
}
use odi_mm.Rbtree.Invariant.{
  inorder, before, after, around, around-plug, Balanced, IsRedBlack, Fits, Allowed, zip-IsPosition,
  zip-IsRedBlack, inorder-zip, Yields, Yields-at, zip-Yields,
}
use odi_mm.Rbtree.Removal.{Hook, remove_loop, remove_color, take_out, leftmost, remove_at}
use odi_mm.Rbtree.Removal.Rounds.{ends, climbs, round-Rounded}

module _ {ℓ} {A : Type ℓ} where
  -- The loop, from a black subtree that lacks a black node.
  remove_loop-Yields :
      (t : Tree A) (path : List (Step A)) (n : ℕ)
      → is_red t ≡ false
      → Balanced t n
      → Fits path (suc n)
      → Yields (remove_loop t path) (around path (inorder t))
  unfolding remove_loop
  remove_loop-Yields t [] n k b f = zip-Yields t [] n b tt (inl k)
  remove_loop-Yields t (s ∷ path) n k b f = elim (round-Rounded t s path n k b f) [
    | ends w h e bw fw aw o ↦
        rw (e, remove_loop)
          (Yields-at (zip-Yields w path h bw fw aw) refl
            (ap (around path) o ∙ around-plug t s path))
    | climbs w h e kw bw fw o ↦
        rw (e, remove_loop)
          (Yields-at (remove_loop-Yields w path h kw bw fw) refl
            (ap (around path) o ∙ around-plug t s path))
  ]

  paint-black :
      (t : Tree A) (n : ℕ)
      → Balanced t n
      → is_red t ≡ true
      → Balanced (paint black t) (suc n)
        × (is_red (paint black t) ≡ false)
        × (inorder (paint black t) ≡ inorder t)
  paint-black tip n b k = absurd (cc k)
  paint-black (node red l a r) n b k = ((b.2, b.3), refl, refl)
  paint-black (node black l a r) n b k = absurd (cc k)

  remove_color-Yields :
      (t : Tree A) (path : List (Step A)) (n : ℕ)
      → Balanced t n
      → Fits path (suc n)
      → Yields (remove_color t path) (around path (inorder t))
  unfolding remove_color
  remove_color-Yields t path n b f = elim (Bool-cases (is_red t)) [
    | inl k ↦
        let (bp, kp, o) = paint-black t n b k in
        rw k (
          Yields-at (zip-Yields (paint black t) path (suc n) bp f (inl kp)) refl
            (ap (around path) o))
    | inr k ↦ rw k (remove_loop-Yields t path n k b f)
  ]

  -- The assert at the end holds of a red-black tree.
  checked :
      {m : Run (Tree A)} {xs : List A}
      → Yields m xs
      → Yields (m >>= λ t. if is_red t then asserted else done t) xs
  unfolding ◌>>=◌
  checked y =
      Yields-at (record { tree = y.tree; returns = refl; redblack = y.redblack; order = y.order })
        (rw (y.returns, y.redblack.root) refl) refl

  take_black :
      (t : Tree A) (path : List (Step A)) (n : ℕ)
      → Balanced t n
      → Fits path (suc n)
      → Yields (take_out black t path) (around path (inorder t))
  unfolding take_out
  take_black t path n b f = checked (remove_color-Yields t path n b f)

  take_red :
      (t : Tree A) (path : List (Step A)) (n : ℕ)
      → is_red t ≡ false
      → Balanced t n
      → Fits path n
      → Yields (take_out red t path) (around path (inorder t))
  unfolding take_out
  take_red t path n k b f = checked (zip-Yields t path n b f (inl k))

  -- A node without a left child, and one without a right child.
  take_right_at :
      (c : Color) (a : A) (r : Tree A) (path : List (Step A)) (n : ℕ)
      → Balanced (node c tip a r) n
      → Fits path n
      → Yields (take_out c r path) (around path (inorder r))
  take_right_at red a r path n b f = take_red r path n b.1 b.3 f
  take_right_at black a r path zero b f = absurd b
  take_right_at black a r path (suc n) b f = take_black r path n b.1 f

  take_left_at :
      (c : Color) (l : Tree A) (a : A) (path : List (Step A)) (n : ℕ)
      → Balanced (node c l a tip) n
      → Fits path n
      → Yields (take_out c l path) (around path (inorder l))
  take_left_at red l a path n b f = take_red l path n b.0 b.2 f
  take_left_at black l a path zero b f = absurd b
  take_left_at black l a path (suc n) b f = take_black l path n b.0 f

  take_right :
      (c : Color) (a : A) (r : Tree A) (path : List (Step A))
      → IsRedBlack (zip (node c tip a r) path)
      → Yields (take_out c r path) (around path (inorder r))
  take_right c a r path h =
      let p = zip-IsPosition (node c tip a r) path h in
      take_right_at c a r path p.height p.balanced p.fits

  take_left :
      (c : Color) (l : Tree A) (a : A) (path : List (Step A))
      → IsRedBlack (zip (node c l a tip) path)
      → Yields (take_out c l path) (around path (inorder l))
  take_left c l a path h =
      let p = zip-IsPosition (node c l a tip) path h in
      take_left_at c l a path p.height p.balanced p.fits

  -- The element of a node does not matter.
  other_elem-Balanced :
      (c : Color) (l : Tree A) (a b : A) (r : Tree A) (n : ℕ)
      → Balanced (node c l a r) n
      → Balanced (node c l b r) n
  other_elem-Balanced red l a b r n h = h
  other_elem-Balanced black l a b r zero h = h
  other_elem-Balanced black l a b r (suc n) h = h

  other_elem-Allowed :
      (c : Color) (l : Tree A) (a b : A) (r : Tree A) (path : List (Step A))
      → Allowed (node c l a r) path
      → Allowed (node c l b r) path
  other_elem-Allowed red l a b r path h = h
  other_elem-Allowed black l a b r path h = h

  other_elem-IsRedBlack :
      (c : Color) (l : Tree A) (a b : A) (r : Tree A) (path : List (Step A))
      → IsRedBlack (zip (node c l a r) path)
      → IsRedBlack (zip (node c l b r) path)
  other_elem-IsRedBlack c l a b r path h =
      let p = zip-IsPosition (node c l a r) path h in
      zip-IsRedBlack (node c l b r) path p.height
        (other_elem-Balanced c l a b r p.height p.balanced) p.fits
        (other_elem-Allowed c l a b r path p.allowed)

  zip-append : (t : Tree A) (p q : List (Step A)) → zip t (p ++ q) ≡ zip (zip t p) q
  unfolding zip
  zip-append t [] q = refl
  zip-append t (s ∷ p) q = zip-append (plug t s) p q

  before-append : (p q : List (Step A)) → before (p ++ q) ≡ before q ++ before p
  before-append [] q = simp append-nil
  before-append (left_of c a s ∷ p) q = before-append p q
  before-append (right_of s c a ∷ p) q = simp (before-append p q, append_assoc)

  after-append : (p q : List (Step A)) → after (p ++ q) ≡ after p ++ after q
  after-append [] q = refl
  after-append (left_of c a s ∷ p) q = simp (after-append p q, append_assoc)
  after-append (right_of s c a ∷ p) q = after-append p q

  abbrev least : Hook A → Tree A
  least h = node h.color tip h.elem h.right

  pub zip-leftmost :
      (c : Color) (l : Tree A) (a : A) (r : Tree A) (path : List (Step A))
      → zip (least (leftmost c l a r path)) (leftmost c l a r path).path ≡ zip (node c l a r) path
  unfolding leftmost zip
  zip-leftmost c tip a r path = refl
  zip-leftmost c (node d l b s) a r path = zip-leftmost d l b s (left_of c a r ∷ path)

  pub before-leftmost :
      (c : Color) (l : Tree A) (a : A) (r : Tree A) (path : List (Step A))
      → before (leftmost c l a r path).path ≡ before path
  unfolding leftmost
  before-leftmost c tip a r path = refl
  before-leftmost c (node d l b s) a r path = before-leftmost d l b s (left_of c a r ∷ path)

  inorder-leftmost :
      (c : Color) (l : Tree A) (a : A) (r : Tree A)
      → let h = leftmost c l a r [] in
        inorder (node c l a r) ≡ h.elem ∷ (inorder h.right ++ after h.path)
  unfolding zip
  inorder-leftmost c l a r =
      let h = leftmost c l a r [] in
      sym (ap inorder (zip-leftmost c l a r []))
      ∙ inorder-zip (least h) h.path
      ∙ ap (λ xs. xs ++ (inorder (least h) ++ after h.path)) (before-leftmost c l a r [])

  -- The least node of the right subtree takes the place of the node.
  replace :
      (c : Color) (l : Tree A) (a : A) (e : Color) (rl : Tree A) (b : A) (rr : Tree A)
      (path : List (Step A))
      → IsRedBlack (zip (node c l a (node e rl b rr)) path)
      → let h = leftmost e rl b rr [] in
        Yields
          (take_out h.color h.right (h.path ++ right_of l c h.elem ∷ path))
          (around path (inorder l ++ (inorder rl ++ b ∷ inorder rr)))
  unfolding zip
  replace c l a e rl b rr path k =
      let h = leftmost e rl b rr [] in
      let q = right_of l c h.elem ∷ path in
      let whole : zip (least h) (h.path ++ q) ≡ zip (node c l h.elem (node e rl b rr)) path =
        zip-append (least h) h.path q ∙ ap (λ t. zip t q) (zip-leftmost e rl b rr []) in
      let y = take_right h.color h.elem h.right (h.path ++ q) (
        subst IsRedBlack (sym whole)
          (other_elem-IsRedBlack c l a h.elem (node e rl b rr) path k)) in
      Yields-at y refl (
        simp (before-append h.path q, after-append h.path q, before-leftmost e rl b rr [])
          (simp (inorder-leftmost e rl b rr, append_assoc)))

  -- `remove` takes one element out of a red-black tree.
  pub remove_at-Yields :
      (c : Color) (l : Tree A) (a : A) (r : Tree A) (path : List (Step A))
      → IsRedBlack (zip (node c l a r) path)
      → Yields (remove_at c l r path) (around path (inorder l ++ inorder r))
  unfolding remove_at
  remove_at-Yields c tip a r path h = take_right c a r path h
  remove_at-Yields c (node d l b s) a tip path h =
      Yields-at (take_left c (node d l b s) a path h) refl (simp append-nil)
  remove_at-Yields c (node d l b s) a (node e rl m rr) path h =
      replace c (node d l b s) a e rl m rr path h
