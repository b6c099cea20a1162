-- ===== src/Rbtree/Removal/Rounds.antt =====
-- One round of `remove_color` of lib/opmip/rbtree_hook.cpp, on a red-black tree from which a black
-- node is missing.
use odi_mm.Base.{
  ℕ, suc, ◌≡◌, refl, inl, inr, true, false, List, ◌∷◌, ◌++◌, append_assoc, arith, Bool-cases,
}
use odi_mm.Run.{Run, done, ◌>>=◌}
use odi_mm.Rbtree.{Color, red, black, Tree, tip, node, Step, left_of, right_of, is_red, plug}
use odi_mm.Rbtree.Invariant.{inorder, Balanced, Fits, Allowed}
use odi_mm.Rbtree.Removal.{
  Round, settled, up, nephews_black, absorb_left, absorb_right, round_left, round_right, round,
}

module _ {ℓ} {A : Type ℓ} where
  -- What the rotations for a black sibling with a red child give: a node of the color `c` over two
  -- black ones.
  pub record Absorbed (m : Run (Tree A)) (c : Color) (n : ℕ) (xs : List A) : Type ℓ where
    pub left : Tree A
    pub elem : A
    pub right : Tree A
    pub returns : m ≡ done (node c left elem right)
    pub left_root : is_red left ≡ false
    pub right_root : is_red right ≡ false
    pub left_balanced : Balanced left n
    pub right_balanced : Balanced right n
    pub order : inorder left ++ elem ∷ inorder right ≡ xs

  absorb_left-Absorbed :
      (c : Color) (t : Tree A) (x : A) (sl : Tree A) (y : A) (sr : Tree A) (n : ℕ)
      → Balanced t n
      → Balanced sl n
      → Balanced sr n
      → nephews_black sl sr ≡ false
      → Absorbed
          (absorb_left c t x sl y sr)
          c
          (suc n)
          (inorder t ++ x ∷ (inorder sl ++ y ∷ inorder sr))
  unfolding absorb_left
  absorb_left-Absorbed c t x sl y (node red p z q) n bt bl br h = record {
    left = node black t x sl;
    elem = y;
    right = node black p z q;
    returns = refl;
    left_root = refl;
    right_root = refl;
    left_balanced = (bt, bl);
    right_balanced = (br.2, br.3);
    order = simp append_assoc;
  }
  absorb_left-Absorbed c t x (node red p z q) y tip n bt bl br h = record {
    left = node black t x p;
    elem = z;
    right = node black q y tip;
    returns = refl;
    left_root = refl;
    right_root = refl;
    left_balanced = (bt, bl.2);
    right_balanced = (bl.3, br);
    order = simp append_assoc;
  }
  absorb_left-Absorbed c t x (node red p z q) y (node black v w u) n bt bl br h = record {
    left = node black t x p;
    elem = z;
    right = node black q y (node black v w u);
    returns = refl;
    left_root = refl;
    right_root = refl;
    left_balanced = (bt, bl.2);
    right_balanced = (bl.3, br);
    order = simp append_assoc;
  }
  absorb_left-Absorbed c t x tip y tip n bt bl br h = absurd (cc h)
  absorb_left-Absorbed c t x tip y (node black v w u) n bt bl br h = absurd (cc h)
  absorb_left-Absorbed c t x (node black p z q) y tip n bt bl br h = absurd (cc h)
  absorb_left-Absorbed c t x (node black p z q) y (node black v w u) n bt bl br h = absurd (cc h)

  absorb_right-Absorbed :
      (c : Color) (sl : Tree A) (y : A) (sr : Tree A) (x : A) (t : Tree A) (n : ℕ)
      → Balanced t n
      → Balanced sl n
      → Balanced sr n
      → nephews_black sl sr ≡ false
      → Absorbed
          (absorb_right c sl y sr x t)
          c
          (suc n)
          ((inorder sl ++ y ∷ inorder sr) ++ x ∷ inorder t)
  unfolding absorb_right
  absorb_right-Absorbed c (node red p z q) y sr x t n bt bl br h = record {
    left = node black p z q;
    elem = y;
    right = node black sr x t;
    returns = refl;
    left_root = refl;
    right_root = refl;
    left_balanced = (bl.2, bl.3);
    right_balanced = (br, bt);
    order = simp append_assoc;
  }
  absorb_right-Absorbed c tip y (node red p z q) x t n bt bl br h = record {
    left = node black tip y p;
    elem = z;
    right = node black q x t;
    returns = refl;
    left_root = refl;
    right_root = refl;
    left_balanced = (bl, br.2);
    right_balanced = (br.3, bt);
    order = simp append_assoc;
  }
  absorb_right-Absorbed c (node black v w u) y (node red p z q) x t n bt bl br h = record {
    left = node black (node black v w u) y p;
    elem = z;
    right = node black q x t;
    returns = refl;
    left_root = refl;
    right_root = refl;
    left_balanced = (bl, br.2);
    right_balanced = (br.3, bt);
    order = simp append_assoc;
  }
  absorb_right-Absorbed c tip y tip x t n bt bl br h = absurd (cc h)
  absorb_right-Absorbed c tip y (node black v w u) x t n bt bl br h = absurd (cc h)
  absorb_right-Absorbed c (node black p z q) y tip x t n bt bl br h = absurd (cc h)
  absorb_right-Absorbed c (node black p z q) y (node black v w u) x t n bt bl br h = absurd (cc h)

  -- How a round ends: the tree is whole again, or a black node is missing one step higher.
  pub data Rounded (m : Run (Round A)) (path : List (Step A)) (xs : List A) : Type ℓ where
    ends :
        (t : Tree A) (n : ℕ)
        → m ≡ done (settled t)
        → Balanced t n
        → Fits path n
        → Allowed t path
        → inorder t ≡ xs
        → Rounded m path xs
    climbs :
        (t : Tree A) (n : ℕ)
        → m ≡ done (up t)
        → is_red t ≡ false
        → Balanced t n
        → Fits path (suc n)
        → inorder t ≡ xs
        → Rounded m path xs

  nephews-black :
      (l r : Tree A) → nephews_black l r ≡ true → (is_red l ≡ false) × (is_red r ≡ false)
  nephews-black l r h = ground arith

  round_left-Rounded :
      (c : Color) (t : Tree A) (x : A) (s : Tree A) (path : List (Step A)) (n : ℕ)
      → is_red t ≡ false
      → Balanced t n
      → Fits (left_of c x s ∷ path) (suc n)
      → Rounded (round_left c t x s) path (inorder t ++ x ∷ inorder s)
  unfolding round_left ◌>>=◌
  round_left-Rounded red t x tip path n k b f = absurd (omega (arith, f.1))
  round_left-Rounded black t x tip path n k b f = absurd (omega (arith, f.0))
  round_left-Rounded red t x (node red l y r) path n k b f = absurd (cc (f.0))
  round_left-Rounded black t x (node red tip y r) path n k b f = absurd (omega (arith, f.0.2))
  round_left-Rounded black t x (node red (node red a z v) y r) path n k b f = absurd (cc (f.0.0))
  round_left-Rounded black t x (node red (node black a z v) y r) path n k b f =
      elim (Bool-cases (nephews_black a v)) [
        | inl e ↦
            let (ka, kv) = nephews-black a v e in
            rw e (
              ends (node black (node black t x (node red a z v)) y r) (suc (suc n)) refl
                ((b, (ka, kv, f.0.2.0, f.0.2.1)), f.0.3) f.1 (inl refl) (simp append_assoc))
        | inr e ↦
            let w = absorb_left-Absorbed red t x a z v n b f.0.2.0 f.0.2.1 e in
            rw (e, w.returns)
              (ends (node black (node red w.left w.elem w.right) y r) (suc (suc n)) refl
                ((w.left_root, w.right_root, w.left_balanced, w.right_balanced), f.0.3) f.1
                (inl refl) (simp (w.order, append_assoc)))
      ]
  round_left-Rounded red t x (node black a y v) path n k b f =
      elim (Bool-cases (nephews_black a v)) [
        | inl e ↦
            let (ka, kv) = nephews-black a v e in
            rw e (
              ends (node black t x (node red a y v)) (suc n) refl (b, (ka, kv, f.1.0, f.1.1)) f.3
                (inl refl) refl)
        | inr e ↦
            let w = absorb_left-Absorbed red t x a y v n b f.1.0 f.1.1 e in
            rw (e, w.returns)
              (ends (node red w.left w.elem w.right) (suc n) refl
                (w.left_root, w.right_root, w.left_balanced, w.right_balanced) f.3 (inr f.2)
                w.order)
      ]
  round_left-Rounded black t x (node black a y v) path n k b f =
      elim (Bool-cases (nephews_black a v)) [
        | inl e ↦
            let (ka, kv) = nephews-black a v e in
            rw e (
              climbs (node black t x (node red a y v)) (suc n) refl refl (b, (ka, kv, f.0.0, f.0.1))
                f.1 refl)
        | inr e ↦
            let w = absorb_left-Absorbed black t x a y v n b f.0.0 f.0.1 e in
            rw (e, w.returns)
              (ends (node black w.left w.elem w.right) (suc (suc n)) refl
                (w.left_balanced, w.right_balanced) f.1 (inl refl) w.order)
      ]

  round_right-Rounded :
      (c : Color) (s : Tree A) (x : A) (t : Tree A) (path : List (Step A)) (n : ℕ)
      → is_red t ≡ false
      → Balanced t n
      → Fits (right_of s c x ∷ path) (suc n)
      → Rounded (round_right c s x t) path (inorder s ++ x ∷ inorder t)
  unfolding round_right ◌>>=◌
  round_right-Rounded red tip x t path n k b f = absurd (omega (arith, f.1))
  round_right-Rounded black tip x t path n k b f = absurd (omega (arith, f.0))
  round_right-Rounded red (node red l y r) x t path n k b f = absurd (cc (f.0))
  round_right-Rounded black (node red l y tip) x t path n k b f = absurd (omega (arith, f.0.3))
  round_right-Rounded black (node red l y (node red a z v)) x t path n k b f = absurd (cc (f.0.1))
  round_right-Rounded black (node red l y (node black a z v)) x t path n k b f =
      elim (Bool-cases (nephews_black a v)) [
        | inl e ↦
            let (ka, kv) = nephews-black a v e in
            rw e (
              ends (node black l y (node black (node red a z v) x t)) (suc (suc n)) refl
                (f.0.2, ((ka, kv, f.0.3.0, f.0.3.1), b)) f.1 (inl refl) (simp append_assoc))
        | inr e ↦
            let w = absorb_right-Absorbed red a z v x t n b f.0.3.0 f.0.3.1 e in
            rw (e, w.returns)
              (ends (node black l y (node red w.left w.elem w.right)) (suc (suc n)) refl
                (f.0.2, (w.left_root, w.right_root, w.left_balanced, w.right_balanced)) f.1
                (inl refl) (simp (w.order, append_assoc)))
      ]
  round_right-Rounded red (node black a y v) x t path n k b f =
      elim (Bool-cases (nephews_black a v)) [
        | inl e ↦
            let (ka, kv) = nephews-black a v e in
            rw e (
              ends (node black (node red a y v) x t) (suc n) refl ((ka, kv, f.1.0, f.1.1), b) f.3
                (inl refl) refl)
        | inr e ↦
            let w = absorb_right-Absorbed red a y v x t n b f.1.0 f.1.1 e in
            rw (e, w.returns)
              (ends (node red w.left w.elem w.right) (suc n) refl
                (w.left_root, w.right_root, w.left_balanced, w.right_balanced) f.3 (inr f.2)
                w.order)
      ]
  round_right-Rounded black (node black a y v) x t path n k b f =
      elim (Bool-cases (nephews_black a v)) [
        | inl e ↦
            let (ka, kv) = nephews-black a v e in
            rw e (
              climbs (node black (node red a y v) x t) (suc n) refl refl ((ka, kv, f.0.0, f.0.1), b)
                f.1 refl)
        | inr e ↦
            let w = absorb_right-Absorbed black a y v x t n b f.0.0 f.0.1 e in
            rw (e, w.returns)
              (ends (node black w.left w.elem w.right) (suc (suc n)) refl
                (w.left_balanced, w.right_balanced) f.1 (inl refl) w.order)
      ]

  pub round-Rounded :
      (t : Tree A) (s : Step A) (path : List (Step A)) (n : ℕ)
      → is_red t ≡ false
      → Balanced t n
      → Fits (s ∷ path) (suc n)
      → Rounded (round t s) path (inorder (plug t s))
  unfolding round
  round-Rounded t (left_of c x s) path n k b f = round_left-Rounded c t x s path n k b f
  round-Rounded t (right_of s c x) path n k b f = round_right-Rounded c s x t path n k b f
