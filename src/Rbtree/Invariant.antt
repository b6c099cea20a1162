-- ===== src/Rbtree/Invariant.antt =====
-- What a red-black tree is (the properties that lib/opmip/rbtree_hook.cpp lists), for a tree and for
-- the path around a position, and the elements in their order.
use odi_mm.Base.{
  ℕ, zero, suc, ◌≡◌, refl, ◌∙◌, ◌⊎◌, inl, inr, Bool, true, false, List, [], ◌∷◌, ◌++◌, append_assoc,
  append-nil,
}
use odi_mm.Run.{Run, done}
use odi_mm.Rbtree.{
  Color, red, black, Tree, tip, node, Step, left_of, right_of, is_black_color, is_red, plug, zip,
}

module _ {ℓ} {A : Type ℓ} where
  -- The elements from left to right, and those on each side of a position.
  abbrev pub inorder : Tree A → List A
  inorder tip = []
  inorder (node c l a r) = inorder l ++ a ∷ inorder r

  abbrev pub before : List (Step A) → List A
  before [] = []
  before (left_of c a s ∷ path) = before path
  before (right_of s c a ∷ path) = before path ++ (inorder s ++ a ∷ [])

  abbrev pub after : List (Step A) → List A
  after [] = []
  after (left_of c a s ∷ path) = a ∷ (inorder s ++ after path)
  after (right_of s c a ∷ path) = after path

  abbrev pub around : List (Step A) → List A → List A
  around path xs = before path ++ (xs ++ after path)

  pub inorder-zip :
      (t : Tree A) (path : List (Step A)) → inorder (zip t path) ≡ around path (inorder t)
  unfolding zip
  inorder-zip t [] = simp append-nil
  inorder-zip t (left_of c a s ∷ path) = simp (inorder-zip (node c t a s) path, append_assoc)
  inorder-zip t (right_of s c a ∷ path) = simp (inorder-zip (node c s a t) path, append_assoc)

  pub around-plug :
      (t : Tree A) (s : Step A) (path : List (Step A))
      → around path (inorder (plug t s)) ≡ around (s ∷ path) (inorder t)
  around-plug t (left_of c a s) path = simp append_assoc
  around-plug t (right_of s c a) path = simp append_assoc

  -- Every path down has `n` black nodes, and a red node has black children.
  abbrev pub Balanced : Tree A → ℕ → Type 0
  Balanced tip n = n ≡ 0
  Balanced (node red l a r) n =
      (is_red l ≡ false) × (is_red r ≡ false) × Balanced l n × Balanced r n
  Balanced (node black l a r) zero = ⊥
  Balanced (node black l a r) (suc n) = Balanced l n × Balanced r n

  pub record IsRedBlack (t : Tree A) : Type 0 where
    pub root : is_red t ≡ false
    pub height : ℕ
    pub balanced : Balanced t height

  -- A red node may stand at a position: below a black parent.
  abbrev pub may_be_red : List (Step A) → Bool
  may_be_red [] = false
  may_be_red (left_of c a s ∷ path) = is_black_color c
  may_be_red (right_of s c a ∷ path) = is_black_color c

  -- The rest of the tree, around a position whose subtree has the height `n`.
  abbrev pub Fits : List (Step A) → ℕ → Type 0
  Fits [] n = Unit {0}
  Fits (left_of red a s ∷ path) n =
      (is_red s ≡ false) × Balanced s n × (may_be_red path ≡ true) × Fits path n
  Fits (left_of black a s ∷ path) n = Balanced s n × Fits path (suc n)
  Fits (right_of s red a ∷ path) n =
      (is_red s ≡ false) × Balanced s n × (may_be_red path ≡ true) × Fits path n
  Fits (right_of s black a ∷ path) n = Balanced s n × Fits path (suc n)

  abbrev pub Allowed : Tree A → List (Step A) → Type 0
  Allowed t path = (is_red t ≡ false) ⊎ (may_be_red path ≡ true)

  pub zip-IsRedBlack :
      (t : Tree A) (path : List (Step A)) (n : ℕ)
      → Balanced t n
      → Fits path n
      → Allowed t path
      → IsRedBlack (zip t path)
  unfolding zip
  zip-IsRedBlack t [] n b f (inl k) = record { root = k; height = n; balanced = b }
  zip-IsRedBlack t [] n b f (inr k) = absurd (cc k)
  zip-IsRedBlack t (left_of black a s ∷ path) n b f k =
      zip-IsRedBlack (node black t a s) path (suc n) (b, f.0) f.1 (inl refl)
  zip-IsRedBlack t (left_of red a s ∷ path) n b f (inl k) =
      zip-IsRedBlack (node red t a s) path n (k, f.0, b, f.1) f.3 (inr f.2)
  zip-IsRedBlack t (left_of red a s ∷ path) n b f (inr k) = absurd (cc k)
  zip-IsRedBlack t (right_of s black a ∷ path) n b f k =
      zip-IsRedBlack (node black s a t) path (suc n) (f.0, b) f.1 (inl refl)
  zip-IsRedBlack t (right_of s red a ∷ path) n b f (inl k) =
      zip-IsRedBlack (node red s a t) path n (f.0, k, f.1, b) f.3 (inr f.2)
  zip-IsRedBlack t (right_of s red a ∷ path) n b f (inr k) = absurd (cc k)

  -- A position in a red-black tree.
  pub record IsPosition (t : Tree A) (path : List (Step A)) : Type 0 where
    pub height : ℕ
    pub balanced : Balanced t height
    pub fits : Fits path height
    pub allowed : Allowed t path

  left_of-IsPosition :
      (t : Tree A) (c : Color) (a : A) (s : Tree A) (path : List (Step A)) (n : ℕ)
      → Balanced (node c t a s) n
      → Fits path n
      → Allowed (node c t a s) path
      → IsPosition t (left_of c a s ∷ path)
  left_of-IsPosition t red a s path n b f (inl k) = absurd (cc k)
  left_of-IsPosition t red a s path n b f (inr k) = record {
    height = n;
    balanced = b.2;
    fits = (b.1, b.3, k, f);
    allowed = inl b.0;
  }
  left_of-IsPosition t black a s path zero b f k = absurd b
  left_of-IsPosition t black a s path (suc n) b f k = record {
    height = n;
    balanced = b.0;
    fits = (b.1, f);
    allowed = inr refl;
  }

  right_of-IsPosition :
      (t s : Tree A) (c : Color) (a : A) (path : List (Step A)) (n : ℕ)
      → Balanced (node c s a t) n
      → Fits path n
      → Allowed (node c s a t) path
      → IsPosition t (right_of s c a ∷ path)
  right_of-IsPosition t s red a path n b f (inl k) = absurd (cc k)
  right_of-IsPosition t s red a path n b f (inr k) = record {
    height = n;
    balanced = b.3;
    fits = (b.0, b.2, k, f);
    allowed = inl b.1;
  }
  right_of-IsPosition t s black a path zero b f k = absurd b
  right_of-IsPosition t s black a path (suc n) b f k = record {
    height = n;
    balanced = b.1;
    fits = (b.0, f);
    allowed = inr refl;
  }

  pub zip-IsPosition :
      (t : Tree A) (path : List (Step A)) → IsRedBlack (zip t path) → IsPosition t path
  unfolding zip
  zip-IsPosition t [] h = record {
    height = h.height;
    balanced = h.balanced;
    fits = tt;
    allowed = inl h.root;
  }
  zip-IsPosition t (left_of c a s ∷ path) h =
      let p = zip-IsPosition (node c t a s) path h in
      left_of-IsPosition t c a s path p.height p.balanced p.fits p.allowed
  zip-IsPosition t (right_of s c a ∷ path) h =
      let p = zip-IsPosition (node c s a t) path h in
      right_of-IsPosition t s c a path p.height p.balanced p.fits p.allowed

  -- A run that ends with a red-black tree of the elements `xs`.
  pub record Yields (m : Run (Tree A)) (xs : List A) : Type ℓ where
    pub tree : Tree A
    pub returns : m ≡ done tree
    pub redblack : IsRedBlack tree
    pub order : inorder tree ≡ xs

  pub Yields-at :
      {m m' : Run (Tree A)} {xs ys : List A} → Yields m xs → m' ≡ m → xs ≡ ys → Yields m' ys
  Yields-at y e o = record {
    tree = y.tree;
    returns = e ∙ y.returns;
    redblack = y.redblack;
    order = y.order ∙ o;
  }

  pub zip-Yields :
      (t : Tree A) (path : List (Step A)) (n : ℕ)
      → Balanced t n
      → Fits path n
      → Allowed t path
      → Yields (done (zip t path)) (around path (inorder t))
  zip-Yields t path n b f k = record {
    tree = zip t path;
    returns = refl;
    redblack = zip-IsRedBlack t path n b f k;
    order = inorder-zip t path;
  }
