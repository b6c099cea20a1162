-- ===== src/Rbtree/Walk/Order.antt =====
-- `next` and `prev` of lib/opmip/rbtree_hook.cpp, and the order of the elements.
use odi_mm.Base.{
  ◌≡◌, refl, sym, ◌∙◌, List, [], ◌∷◌, ◌++◌, append_assoc, append-nil, Option, none, some,
}
use odi_mm.Rbtree.{Color, Tree, tip, node, Step, left_of, right_of, zip}
use odi_mm.Rbtree.Invariant.{inorder, before, after, inorder-zip}
use odi_mm.Rbtree.Removal.{Hook, leftmost}
use odi_mm.Rbtree.Walk.{rightmost, climb_right, climb_left, next, prev}

module _ {ℓ} {A : Type ℓ} where
  -- The tree that a hook is in, and the elements behind it and before it.
  abbrev pub whole : Hook A → Tree A
  whole h = zip (node h.color h.left h.elem h.right) h.path

  abbrev pub rest : Hook A → List A
  rest h = inorder h.right ++ after h.path

  abbrev pub front : Hook A → List A
  front h = before h.path ++ inorder h.left

  pub inorder-whole : (h : Hook A) → inorder (whole h) ≡ front h ++ h.elem ∷ rest h
  inorder-whole h = inorder-zip (node h.color h.left h.elem h.right) h.path ∙ simp append_assoc

  -- `m` is the hook of the first element of `xs`, in the tree `t`, or none.
  pub data Heads (m : Option (Hook A)) (t : Tree A) (xs : List A) : Type ℓ where
    last : m ≡ none → xs ≡ [] → Heads m t xs
    goes : (h : Hook A) → m ≡ some h → whole h ≡ t → xs ≡ h.elem ∷ rest h → Heads m t xs

  climb_right-Heads :
      (t : Tree A) (path : List (Step A)) → Heads (climb_right t path) (zip t path) (after path)
  unfolding climb_right zip
  climb_right-Heads t [] = last refl refl
  climb_right-Heads t (right_of s c a ∷ path) = climb_right-Heads (node c s a t) path
  climb_right-Heads t (left_of c a s ∷ path) =
      goes (record { color = c; left = t; elem = a; right = s; path = path }) refl refl refl

  pub leftmost-Heads :
      (c : Color) (l : Tree A) (a : A) (r : Tree A) (path : List (Step A))
      → Heads
          (some (leftmost c l a r path))
          (zip (node c l a r) path)
          (inorder (node c l a r) ++ after path)
  unfolding leftmost zip
  leftmost-Heads c tip a r path =
      goes (record { color = c; left = tip; elem = a; right = r; path = path }) refl refl refl
  leftmost-Heads c (node d l b s) a r path = elim (leftmost-Heads d l b s (left_of c a r ∷ path)) [
    | last e o ↦ absurd (cc e)
    | goes h e w o ↦
        goes h e w (append_assoc (inorder (node d l b s)) (a ∷ inorder r) (after path) ∙ o)
  ]

  -- `next` is the hook behind, in the same tree.
  pub next-Heads : (h : Hook A) → Heads (next h) (whole h) (rest h)
  unfolding next zip
  next-Heads h = by_right h.color h.left h.elem h.right h.path
    where
      by_right :
          (c : Color) (l : Tree A) (a : A) (r : Tree A) (path : List (Step A))
          → Heads
              (next (record { color = c; left = l; elem = a; right = r; path = path }))
              (zip (node c l a r) path)
              (inorder r ++ after path)
      by_right c l a tip path = climb_right-Heads (node c l a tip) path
      by_right c l a (node d m b s) path = leftmost-Heads d m b s (right_of l c a ∷ path)

  -- The other way: `m` is the hook of the last element of `xs`.
  pub data Lasts (m : Option (Hook A)) (t : Tree A) (xs : List A) : Type ℓ where
    first : m ≡ none → xs ≡ [] → Lasts m t xs
    goes_back : (h : Hook A) → m ≡ some h → whole h ≡ t → xs ≡ front h ++ h.elem ∷ [] → Lasts m t xs

  climb_left-Lasts :
      (t : Tree A) (path : List (Step A)) → Lasts (climb_left t path) (zip t path) (before path)
  unfolding climb_left zip
  climb_left-Lasts t [] = first refl refl
  climb_left-Lasts t (left_of c a s ∷ path) = climb_left-Lasts (node c t a s) path
  climb_left-Lasts t (right_of s c a ∷ path) =
      goes_back (record { color = c; left = s; elem = a; right = t; path = path }) refl refl
        (sym (append_assoc (before path) (inorder s) (a ∷ [])))

  rightmost-Lasts :
      (c : Color) (l : Tree A) (a : A) (r : Tree A) (path : List (Step A))
      → Lasts
          (some (rightmost c l a r path))
          (zip (node c l a r) path)
          (before path ++ inorder (node c l a r))
  unfolding rightmost zip
  rightmost-Lasts c l a tip path =
      goes_back (record { color = c; left = l; elem = a; right = tip; path = path }) refl refl
        (sym (append_assoc (before path) (inorder l) (a ∷ [])))
  rightmost-Lasts c l a (node d s b r) path =
      elim (rightmost-Lasts d s b r (right_of l c a ∷ path)) [
        | first e o ↦ absurd (cc e)
        | goes_back h e w o ↦ goes_back h e w (simp append_assoc (simp append_assoc at o))
      ]

  -- `prev` is the hook before, in the same tree.
  pub prev-Lasts : (h : Hook A) → Lasts (prev h) (whole h) (front h)
  unfolding prev zip
  prev-Lasts h = by_left h.color h.left h.elem h.right h.path
    where
      by_left :
          (c : Color) (l : Tree A) (a : A) (r : Tree A) (path : List (Step A))
          → Lasts
              (prev (record { color = c; left = l; elem = a; right = r; path = path }))
              (zip (node c l a r) path)
              (before path ++ inorder l)
      by_left c tip a r path =
          rw (append-nil (before path)) (climb_left-Lasts (node c tip a r) path)
      by_left c (node d m b s) a r path = rightmost-Lasts d m b s (left_of c a r ∷ path)
