-- ===== src/Rbtree/Table/Insertion.antt =====
-- `insert_unique` of inc/opmip/rbtree.hpp against the sorted list of the elements.
use odi_mm.Base.{
  ◌≡◌, refl, sym, ap, ◌∙◌, inl, inr, Bool, true, false, List, [], ◌∷◌, ◌++◌, append_assoc,
  append-nil, Option, none, some, All, Bool-cases,
}
use mathlib.Core.Path.{subst}
use odi_mm.Run.{Run, done, ◌>>=◌}
use odi_mm.Rbtree.{Tree, tip, node, Step, left_of, right_of, zip}
use odi_mm.Rbtree.Invariant.{inorder, around, IsRedBlack, inorder-zip}
use odi_mm.Rbtree.Insertion.{insert-Yields}
use odi_mm.Rbtree.Table.{Keyed, insert_unique_from, insert_unique}
use odi_mm.Rbtree.Table.Keys.{
  Behind, IsSorted, sorted_lookup, sorted_add, IsSorted-split, Behind-trans, sorted_lookup_left,
  sorted_add_left, sorted_add-Behind, not_before,
}
use odi_mm.Rbtree.Table.Laws.{sorted_lookup_here, sorted_lookup_right}

abbrev pub is_none {ℓ} : {A : Type ℓ} → Option A → Bool
is_none none = true
is_none (some a) = false

module _ {ℓ κ} {A : Type ℓ} {K : Type κ} (keyed : Keyed A K) where
  -- The run ends with a red-black tree of the elements `ys`, and says whether the key of `x` was
  -- missing in `xs`.
  pub record Inserted (m : Run (Tree A × Bool)) (x : A) (xs ys : List A) : Type ℓ where
    pub tree : Tree A
    pub fresh : Bool
    pub returns : m ≡ done (tree, fresh)
    pub redblack : IsRedBlack tree
    pub order : inorder tree ≡ ys
    pub missing_key : fresh ≡ is_none (sorted_lookup keyed (keyed.key x) xs)

  Inserted-at :
      {m : Run (Tree A × Bool)} {x : A} {xs xs' ys ys' : List A}
      → sorted_lookup keyed (keyed.key x) xs' ≡ sorted_lookup keyed (keyed.key x) xs
      → ys ≡ ys'
      → Inserted m x xs ys
      → Inserted m x xs' ys'
  Inserted-at e o i = record {
    tree = i.tree;
    fresh = i.fresh;
    returns = i.returns;
    redblack = i.redblack;
    order = i.order ∙ o;
    missing_key = i.missing_key ∙ ap is_none (sym e);
  }

  sorted_add_here :
      (x : A) (xs : List A) (a : A) (ys : List A)
      → All (Behind keyed (keyed.key a)) xs
      → keyed.less (keyed.key x) (keyed.key a) ≡ false
      → keyed.less (keyed.key a) (keyed.key x) ≡ false
      → sorted_add keyed x (xs ++ a ∷ ys) ≡ xs ++ a ∷ ys
  unfolding sorted_add
  sorted_add_here x xs a ys h p q =
      let same = keyed.less_total (keyed.key a) (keyed.key x) q p in
      sorted_add-Behind keyed x xs (a ∷ ys) (subst (λ j. All (Behind keyed j) xs) same h)
      ∙ ap (◌++◌ xs) (rw (p, q) refl)

  sorted_add_right :
      (x : A) (xs : List A) (a : A) (ys : List A)
      → All (Behind keyed (keyed.key a)) xs
      → Behind keyed (keyed.key x) a
      → sorted_add keyed x (xs ++ a ∷ ys) ≡ xs ++ a ∷ sorted_add keyed x ys
  unfolding sorted_add
  sorted_add_right x xs a ys h q =
      sorted_add-Behind keyed x xs (a ∷ ys) (Behind-trans keyed a (keyed.key x) xs q h)
      ∙ ap (◌++◌ xs) (rw (not_before keyed (keyed.key a) (keyed.key x) q, q) refl)

  insert_unique_from-Inserted :
      (x : A) (t : Tree A) (path : List (Step A))
      → IsRedBlack (zip t path)
      → IsSorted keyed (inorder t)
      → Inserted
          (insert_unique_from keyed x t path)
          x
          (inorder t)
          (around path (sorted_add keyed x (inorder t)))
  unfolding insert_unique_from sorted_lookup sorted_add zip ◌>>=◌
  insert_unique_from-Inserted x tip path h s =
      let y = insert-Yields x path h in
      record {
        tree = y.tree;
        fresh = true;
        returns = rw (y.returns) refl;
        redblack = y.redblack;
        order = y.order;
        missing_key = refl;
      }
  insert_unique_from-Inserted x (node c l a r) path h s =
      let (behind, low, ahead, high) = IsSorted-split keyed (inorder l) a (inorder r) s in
      elim (Bool-cases (keyed.less (keyed.key x) (keyed.key a))) [
        | inl p ↦ rw p (
            Inserted-at (sorted_lookup_left keyed (keyed.key x) (inorder l) a (inorder r) p)
              (simp (sorted_add_left keyed x (inorder l) a (inorder r) p, append_assoc))
              (insert_unique_from-Inserted x l (left_of c a r ∷ path) h low))
        | inr p ↦ elim (Bool-cases (keyed.less (keyed.key a) (keyed.key x))) [
          | inl q ↦
              rw (p, q)
                (Inserted-at
                  (sorted_lookup_right keyed (keyed.key x) (inorder l) a (inorder r) behind q)
                  (simp (sorted_add_right x (inorder l) a (inorder r) behind q, append_assoc))
                  (insert_unique_from-Inserted x r (right_of l c a ∷ path) h high))
          | inr q ↦
              rw (p, q)
                (record {
                  tree = zip (node c l a r) path;
                  fresh = false;
                  returns = refl;
                  redblack = h;
                  order =
                      inorder-zip (node c l a r) path
                      ∙ ap (around path)
                          (sym (sorted_add_here x (inorder l) a (inorder r) behind p q));
                  missing_key = ap is_none (
                      sym (
                        sorted_lookup_here keyed (keyed.key x) (inorder l) a (inorder r) behind p
                          q));
                })
        ]
      ]

  -- `insert_unique` on a red-black tree in order adds the element at its place, unless its key is
  -- there.
  pub insert_unique-Inserted :
      (x : A) (t : Tree A)
      → IsRedBlack t
      → IsSorted keyed (inorder t)
      → Inserted (insert_unique keyed x t) x (inorder t) (sorted_add keyed x (inorder t))
  unfolding insert_unique zip
  insert_unique-Inserted x t h s =
      Inserted-at refl (append-nil (sorted_add keyed x (inorder t)))
        (insert_unique_from-Inserted x t [] h s)
