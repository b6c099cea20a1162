-- ===== src/Rbtree/Depth.antt =====
-- The depth of the trees of lib/opmip/rbtree_hook.cpp, which is what the loops over their paths cost.
use odi_mm.Base.{
  ℕ, zero, suc, ◌+◌, ◌*◌, ◌/◌, ◌^◌, ◌≤◌, ◌≡◌, refl, sym, ap, ◌∙◌, inl, inr, List, [], ◌∷◌, some,
  arith, length, length-append, if◌then◌else◌,
}
use mathlib.Core.Path.{subst}
use odi_mm.Rbtree.{Color, red, black, Tree, tip, node, Step, left_of, right_of, zip}
use odi_mm.Rbtree.Invariant.{
  inorder, Balanced, Fits, Allowed, may_be_red, IsRedBlack, zip-IsPosition,
}
use odi_mm.Rbtree.Removal.{Hook}
use odi_mm.Rbtree.Walk.Order.{whole}
use odi_mm.Rbtree.Table.{Keyed, find}
use odi_mm.Rbtree.Table.Keys.{IsSorted}
use odi_mm.Rbtree.Table.Laws.{missing, found, find-Found}

two_power : (n : ℕ) → 2 ^ suc n ≡ 2 * 2 ^ n
two_power n = omega arith

power-le : (m n : ℕ) → m ≤ n → 2 ^ m ≤ 2 ^ n
power-le zero zero h = omega arith
power-le (suc m) zero h = absurd (omega (arith, h))
power-le zero (suc n) h = omega (arith, two_power n, power-le zero n (omega arith))
power-le (suc m) (suc n) h =
    omega (arith, two_power n, two_power m, power-le m n (omega (arith, h)))

module _ {ℓ} {A : Type ℓ} where
  blacks : List (Step A) → ℕ
  blacks [] = 0
  blacks (left_of red a s ∷ path) = blacks path
  blacks (left_of black a s ∷ path) = suc (blacks path)
  blacks (right_of s red a ∷ path) = blacks path
  blacks (right_of s black a ∷ path) = suc (blacks path)

  -- At most every second step is red.
  length-le-blacks :
      (path : List (Step A)) (n : ℕ)
      → Fits path n
      → length path + (if may_be_red path then 1 else 0) ≤ 2 * blacks path
  unfolding blacks
  length-le-blacks [] n f = omega arith
  length-le-blacks (left_of red a s ∷ path) n f = ground (arith, length-le-blacks path n f.3, f.2)
  length-le-blacks (left_of black a s ∷ path) n f =
      ground (arith, length-le-blacks path (suc n) f.1)
  length-le-blacks (right_of s red a ∷ path) n f = ground (arith, length-le-blacks path n f.3, f.2)
  length-le-blacks (right_of s black a ∷ path) n f =
      ground (arith, length-le-blacks path (suc n) f.1)

  Balanced-size : (t : Tree A) (n : ℕ) → Balanced t n → 2 ^ n ≤ length (inorder t) + 1
  Balanced-size tip n b = rw b (omega arith)
  Balanced-size (node red l a r) n b =
      omega (arith, length-append (inorder l) (a ∷ inorder r), Balanced-size l n b.2)
  Balanced-size (node black l a r) zero b = absurd b
  Balanced-size (node black l a r) (suc n) b = omega (
    arith,
    two_power n,
    length-append (inorder l) (a ∷ inorder r),
    Balanced-size l n b.0,
    Balanced-size r n b.1,
  )

  zip-Balanced :
      (t : Tree A) (path : List (Step A)) (n : ℕ)
      → Balanced t n
      → Fits path n
      → Allowed t path
      → Balanced (zip t path) (n + blacks path)
  unfolding zip blacks
  zip-Balanced t [] n b f k = subst (Balanced t) (omega arith) b
  zip-Balanced t (left_of black a s ∷ path) n b f k =
      subst (Balanced (zip (node black t a s) path)) (omega arith)
        (zip-Balanced (node black t a s) path (suc n) (b, f.0) f.1 (inl refl))
  zip-Balanced t (left_of red a s ∷ path) n b f (inl k) =
      zip-Balanced (node red t a s) path n (k, f.0, b, f.1) f.3 (inr f.2)
  zip-Balanced t (left_of red a s ∷ path) n b f (inr k) = absurd (cc k)
  zip-Balanced t (right_of s black a ∷ path) n b f k =
      subst (Balanced (zip (node black s a t) path)) (omega arith)
        (zip-Balanced (node black s a t) path (suc n) (f.0, b) f.1 (inl refl))
  zip-Balanced t (right_of s red a ∷ path) n b f (inl k) =
      zip-Balanced (node red s a t) path n (f.0, k, f.1, b) f.3 (inr f.2)
  zip-Balanced t (right_of s red a ∷ path) n b f (inr k) = absurd (cc k)

  -- A node is less deep than a null pointer: a red one has a black parent, and below a black one the
  -- height is less.
  node-steps :
      (c : Color) (l r : Tree A) (a : A) (path : List (Step A)) (n : ℕ)
      → Balanced (node c l a r) n
      → Allowed (node c l a r) path
      → Fits path n
      → suc (length path / 2) ≤ n + blacks path
  node-steps red l r a path n b (inl k) f = absurd (cc k)
  node-steps red l r a path n b (inr k) f =
      let steps = length-le-blacks path n f in omega (arith, rw k at steps)
  node-steps black l r a path zero b k f = absurd b
  node-steps black l r a path (suc n) b k f = ground (arith, length-le-blacks path (suc n) f)

  node-length :
      (c : Color) (l r : Tree A) (a : A) (path : List (Step A))
      → IsRedBlack (zip (node c l a r) path)
      → 2 ^ suc (length path / 2) ≤ length (inorder (zip (node c l a r) path)) + 1
  node-length c l r a path h =
      let t = node c l a r in
      let p = zip-IsPosition t path h in
      omega (
        arith,
        power-le (suc (length path / 2)) (p.height + blacks path)
            (node-steps c l r a path p.height p.balanced p.allowed p.fits),
        Balanced-size (zip t path) (p.height + blacks path)
            (zip-Balanced t path p.height p.balanced p.fits p.allowed),
      )

module _ {ℓ κ} {A : Type ℓ} {K : Type κ} (keyed : Keyed A K) where
  -- In a red-black tree in order of n elements, the hook that `find` gives for a key that the tree has
  -- stands less than 2 log2 (n + 1) steps below the root: two to the power of one more than half the
  -- steps, rounded down, is at most n + 1.
  pub find-length :
      (k : K) (t : Tree A) (h : Hook A)
      → IsRedBlack t
      → IsSorted keyed (inorder t)
      → find keyed k t ≡ some h
      → 2 ^ suc (length h.path / 2) ≤ length (inorder t) + 1
  find-length k t h r s e = elim (find-Found keyed k t s) [
    | missing n o ↦ absurd (cc (n, e))
    | found g n w o ↦
        let same : g ≡ h = cc (n, e) in
        let w' : whole h ≡ t = ap whole (sym same) ∙ w in
        subst (λ u. 2 ^ suc (length h.path / 2) ≤ length (inorder u) + 1) w'
          (node-length h.color h.left h.right h.elem h.path (subst IsRedBlack (sym w') r))
  ]
