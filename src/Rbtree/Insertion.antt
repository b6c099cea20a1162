-- ===== src/Rbtree/Insertion.antt =====
-- `insert` of lib/opmip/rbtree_hook.cpp on red-black trees.
use odi_mm.Base.{
  ℕ, suc, ◌≡◌, refl, ◌⊎◌, inl, inr, true, false, List, [], ◌∷◌, append_assoc, arith, Bool-cases,
  sym, ◌∙◌, ap,
}
use odi_mm.Run.{Run, done, ◌>>=◌}
use odi_mm.Rbtree.{
  red, black, Tree, tip, node, Step, left_of, right_of, is_red, plug, zip, turn, insert_loop,
  insert, sibling, step_color, paint, paint_sibling, is_black_color,
}
use odi_mm.Rbtree.Invariant.{
  inorder, around, around-plug, Balanced, IsRedBlack, Fits, Yields, Yields-at, zip-IsPosition,
  zip-Yields, may_be_red,
}

module _ {ℓ} {A : Type ℓ} where
  -- What the rotations make of the two steps above a red node.
  pub record Turned (m : Run (Tree A)) (path : List (Step A)) (n : ℕ) (xs : List A) : Type ℓ where
    pub tree : Tree A
    pub returns : m ≡ done tree
    pub balanced : Balanced tree n
    pub fits : Fits path n
    pub root : is_red tree ≡ false
    pub order : inorder tree ≡ xs

  turn-Turned :
      (a : Tree A) (x : A) (b : Tree A) (p g : Step A) (path : List (Step A)) (n : ℕ)
      → Balanced (node red a x b) n
      → Fits (p ∷ g ∷ path) n
      → step_color p ≡ red
      → is_red (sibling g) ≡ false
      → Turned (turn (node red a x b) p g) path (suc n) (inorder (plug (plug (node red a x b) p) g))
  unfolding turn
  turn-Turned a x b (left_of red y s) (left_of black z u) path n h f k v = record {
    tree = node black (node red a x b) y (node red s z u);
    returns = refl;
    balanced = ground arith;
    fits = ground arith;
    root = refl;
    order = simp append_assoc;
  }
  turn-Turned a x b (left_of red y s) (right_of u black z) path n h f k v = record {
    tree = node black (node red u z a) x (node red b y s);
    returns = refl;
    balanced = ground arith;
    fits = ground arith;
    root = refl;
    order = simp append_assoc;
  }
  turn-Turned a x b (right_of s red y) (left_of black z u) path n h f k v = record {
    tree = node black (node red s y a) x (node red b z u);
    returns = refl;
    balanced = ground arith;
    fits = ground arith;
    root = refl;
    order = simp append_assoc;
  }
  turn-Turned a x b (right_of s red y) (right_of u black z) path n h f k v = record {
    tree = node black (node red u z s) y (node red a x b);
    returns = refl;
    balanced = ground arith;
    fits = ground arith;
    root = refl;
    order = simp append_assoc;
  }
  turn-Turned a x b (left_of red y s) (left_of red z u) path n h f k v = absurd (cc (f.2))
  turn-Turned a x b (left_of red y s) (right_of u red z) path n h f k v = absurd (cc (f.2))
  turn-Turned a x b (right_of s red y) (left_of red z u) path n h f k v = absurd (cc (f.2))
  turn-Turned a x b (right_of s red y) (right_of u red z) path n h f k v = absurd (cc (f.2))
  turn-Turned a x b (left_of black y s) g path n h f k v = absurd (cc k)
  turn-Turned a x b (right_of s black y) g path n h f k v = absurd (cc k)

  -- What a red uncle leaves at the grandparent, `t`: a red node, one black node higher.
  pub record Raised (t : Tree A) (path : List (Step A)) (n : ℕ) (xs : List A) : Type ℓ where
    pub left : Tree A
    pub elem : A
    pub right : Tree A
    pub shape : t ≡ node red left elem right
    pub balanced : Balanced (node red left elem right) n
    pub fits : Fits path n
    pub order : inorder (node red left elem right) ≡ xs

  abbrev recolored : Tree A → Step A → Step A → Tree A
  recolored t p g = paint red (plug (paint black (plug t p)) (paint_sibling black g))

  recolored-Raised :
      (a : Tree A) (x : A) (b : Tree A) (p g : Step A) (path : List (Step A)) (n : ℕ)
      → Balanced (node red a x b) n
      → Fits (p ∷ g ∷ path) n
      → step_color p ≡ red
      → is_red (sibling g) ≡ true
      → Raised
          (recolored (node red a x b) p g)
          path
          (suc n)
          (inorder (plug (plug (node red a x b) p) g))
  recolored-Raised a x b (left_of red y s) (left_of black z (node red v w u)) path n h f k r =
      record {
        left = node black (node red a x b) y s;
        elem = z;
        right = node black v w u;
        shape = refl;
        balanced = ground arith;
        fits = ground arith;
        order = refl;
      }
  recolored-Raised a x b (left_of red y s) (right_of (node red v w u) black z) path n h f k r =
      record {
        left = node black v w u;
        elem = z;
        right = node black (node red a x b) y s;
        shape = refl;
        balanced = ground arith;
        fits = ground arith;
        order = refl;
      }
  recolored-Raised a x b (right_of s red y) (left_of black z (node red v w u)) path n h f k r =
      record {
        left = node black s y (node red a x b);
        elem = z;
        right = node black v w u;
        shape = refl;
        balanced = ground arith;
        fits = ground arith;
        order = refl;
      }
  recolored-Raised a x b (right_of s red y) (right_of (node red v w u) black z) path n h f k r =
      record {
        left = node black v w u;
        elem = z;
        right = node black s y (node red a x b);
        shape = refl;
        balanced = ground arith;
        fits = ground arith;
        order = refl;
      }
  recolored-Raised a x b (left_of red y s) (left_of red z u) path n h f k r = absurd (cc (f.2))
  recolored-Raised a x b (left_of red y s) (right_of u red z) path n h f k r = absurd (cc (f.2))
  recolored-Raised a x b (right_of s red y) (left_of red z u) path n h f k r = absurd (cc (f.2))
  recolored-Raised a x b (right_of s red y) (right_of u red z) path n h f k r = absurd (cc (f.2))
  recolored-Raised a x b (left_of red y s) (left_of black z tip) path n h f k r = absurd (cc r)
  recolored-Raised a x b (left_of red y s) (right_of tip black z) path n h f k r = absurd (cc r)
  recolored-Raised a x b (right_of s red y) (left_of black z tip) path n h f k r = absurd (cc r)
  recolored-Raised a x b (right_of s red y) (right_of tip black z) path n h f k r = absurd (cc r)
  recolored-Raised a x b (left_of red y s) (left_of black z (node black v w u)) path n h f k r =
      absurd (cc r)
  recolored-Raised a x b (left_of red y s) (right_of (node black v w u) black z) path n h f k r =
      absurd (cc r)
  recolored-Raised a x b (right_of s red y) (left_of black z (node black v w u)) path n h f k r =
      absurd (cc r)
  recolored-Raised a x b (right_of s red y) (right_of (node black v w u) black z) path n h f k r =
      absurd (cc r)
  recolored-Raised a x b (left_of black y s) g path n h f k r = absurd (cc k)
  recolored-Raised a x b (right_of s black y) g path n h f k r = absurd (cc k)

  color_cases : (p : Step A) → (step_color p ≡ red) ⊎ (step_color p ≡ black)
  color_cases (left_of red a s) = inl refl
  color_cases (left_of black a s) = inr refl
  color_cases (right_of s red a) = inl refl
  color_cases (right_of s black a) = inr refl

  may_be_red_below :
      (p : Step A) (path : List (Step A)) → step_color p ≡ black → may_be_red (p ∷ path) ≡ true
  may_be_red_below (left_of c a s) path k = ap is_black_color k
  may_be_red_below (right_of s c a) path k = ap is_black_color k

  root_child : (p : Step A) (n : ℕ) → Fits (p ∷ []) n → step_color p ≡ red → ⊥
  root_child (left_of red a s) n f k = cc (f.2)
  root_child (right_of s red a) n f k = cc (f.2)
  root_child (left_of black a s) n f k = cc k
  root_child (right_of s black a) n f k = cc k

  around-plug_twice :
      (t : Tree A) (p g : Step A) (path : List (Step A))
      → around path (inorder (plug (plug t p) g)) ≡ around (p ∷ g ∷ path) (inorder t)
  around-plug_twice t p g path = around-plug (plug t p) g path ∙ around-plug t p (g ∷ path)

  insert_loop-Yields :
      (a : Tree A) (x : A) (b : Tree A) (path : List (Step A)) (n : ℕ)
      → Balanced (node red a x b) n
      → Fits path n
      → Yields (insert_loop (node red a x b) path) (around path (inorder (node red a x b)))
  unfolding insert_loop ◌>>=◌
  insert_loop-Yields a x b [] n h f =
      zip-Yields (node black a x b) [] (suc n) (h.2, h.3) tt (inl refl)
  insert_loop-Yields a x b (p ∷ []) n h f = elim (color_cases p) [
    | inl k ↦ absurd (root_child p n f k)
    | inr k ↦ rw k (zip-Yields (node red a x b) (p ∷ []) n h f (inr (may_be_red_below p [] k)))
  ]
  insert_loop-Yields a x b (p ∷ g ∷ path) n h f = elim (color_cases p) [
    | inr k ↦
        rw k
          (zip-Yields (node red a x b) (p ∷ g ∷ path) n h f (inr (may_be_red_below p (g ∷ path) k)))
    | inl k ↦ elim (Bool-cases (is_red (sibling g))) [
      | inl v ↦
          let r = recolored-Raised a x b p g path n h f k v in
          let y = insert_loop-Yields r.left r.elem r.right path (suc n) r.balanced r.fits in
          rw (k, v)
            (Yields-at y (ap (λ t. insert_loop t path) r.shape)
              (ap (around path) r.order ∙ around-plug_twice (node red a x b) p g path))
      | inr v ↦
          let t = turn-Turned a x b p g path n h f k v in
          rw (k, v, t.returns)
            (Yields-at (zip-Yields t.tree path (suc n) t.balanced t.fits (inl t.root)) refl
              (ap (around path) t.order ∙ around-plug_twice (node red a x b) p g path))
    ]
  ]

  -- A new element takes its place, and the tree stays red-black.
  pub insert-Yields :
      (a : A) (path : List (Step A))
      → IsRedBlack (zip tip path)
      → Yields (insert a path) (around path (a ∷ []))
  unfolding insert
  insert-Yields a path h =
      let p = zip-IsPosition tip path h in
      insert_loop-Yields tip a tip path 0 (refl, refl, refl, refl) (rw (sym p.balanced) p.fits)
