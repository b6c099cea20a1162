-- ===== src/Rbtree/Table/Dispose.antt =====
-- `clear_and_dispose` of inc/opmip/rbtree.hpp, with the disposer of inc/opmip/disposer.hpp, which
-- deletes the node: to read a node that is deleted is undefined. A node is known by its place in
-- the order of the elements.
use odi_mm.Base.{
  ℕ, zero, suc, ◌+◌, ◌<◌, ◌≡◌, refl, sym, ap, ◌∙◌, inl, inr, Bool, true, false, List, [], ◌∷◌, ◌++◌,
  ◌||◌, append-nil, Option, none, some, arith, Bool-cases, if◌then◌else◌, length, length-append,
  nat_beq,
}
use mathlib.Core.Path.{subst}
use odi_mm.Run.{Run, done, threw, asserted, undefined}
use odi_mm.Rbtree.{Color, Tree, tip, node, Step, left_of, right_of, zip}
use odi_mm.Rbtree.Invariant.{inorder, before}
use odi_mm.Rbtree.Removal.{Hook, leftmost}
use odi_mm.Rbtree.Walk.{next}
use odi_mm.Rbtree.Walk.Order.{
  inorder-whole, whole, rest, front, last, goes, leftmost-Heads, next-Heads,
}
use odi_mm.Rbtree.Table.{begin}

abbrev pub deleted : ℕ → List ℕ → Bool
deleted i [] = false
deleted i (j ∷ js) = nat_beq i j || deleted i js

abbrev AllGone : List ℕ → ℕ → Type 0
AllGone gone n = (i : ℕ) → i < n → deleted i gone ≡ true

AllGone-next : (gone : List ℕ) (n : ℕ) → AllGone gone n → AllGone (n ∷ gone) (suc n)
AllGone-next gone n k i h = ground (arith, k i)

module _ {ℓ} {A : Type ℓ} where
  -- The loop of `next` over the parents; `gone` are the nodes that are deleted.
  unfoldable pub climb_alive : List ℕ → Tree A → List (Step A) → Run (Option (Hook A))
  climb_alive gone t [] = done none
  climb_alive gone t (right_of s c a ∷ path) =
      if deleted (length (before path ++ inorder s)) gone
      then undefined
      else climb_alive gone (node c s a t) path
  climb_alive gone t (left_of c a s ∷ path) =
      if deleted (length (before path ++ inorder t)) gone
      then undefined
      else done (some (record { color = c; left = t; elem = a; right = s; path = path }))

  -- `next`. The nodes in the right subtree are behind the node, and are not deleted before it.
  unfoldable pub next_alive : List ℕ → Hook A → Run (Option (Hook A))
  unfolding leftmost climb_alive
  next_alive gone h = elim h.right [
    | tip ↦ climb_alive gone (node h.color h.left h.elem h.right) h.path
    | node c l a r ↦ done (some (leftmost c l a r (right_of h.left h.color h.elem ∷ h.path)))
  ]

  -- The loop of `clear_and_dispose`, with the nodes that it has deleted; `threw` is the end of the
  -- fuel.
  unfoldable pub clear_loop : ℕ → List ℕ → Option (Hook A) → Run (List ℕ)
  unfolding next_alive
  clear_loop fuel gone none = done gone
  clear_loop zero gone (some h) = threw
  clear_loop (suc fuel) gone (some h) = elim (next_alive gone h) [
    | done m ↦ clear_loop fuel (length (front h) ∷ gone) m
    | threw ↦ threw
    | asserted ↦ asserted
    | undefined ↦ undefined
  ]

  unfoldable pub clear_and_dispose : Tree A → Run (List ℕ)
  unfolding clear_loop begin
  clear_and_dispose t = clear_loop (length (inorder t)) [] (begin t)

  -- What `next` does when all nodes before the hook are deleted.
  data Alive (m : Run (Option (Hook A))) (h : Hook A) : Type ℓ where
    crashes : m ≡ undefined → Alive m h
    ends : m ≡ done none → h.path ≡ [] → h.right ≡ tip → Alive m h
    moves : (h' : Hook A) → m ≡ done (some h') → next h ≡ some h' → Alive m h

  next_alive-Alive :
      (gone : List ℕ) (c : Color) (l : Tree A) (a : A) (r : Tree A) (path : List (Step A))
      → AllGone gone (length (before path ++ inorder l))
      → let h : Hook A = record { color = c; left = l; elem = a; right = r; path = path } in
        Alive (next_alive gone h) h
  unfolding next_alive next climb_alive
  next_alive-Alive gone c l a tip [] k = ends refl refl refl
  next_alive-Alive gone c l a tip (right_of s d b ∷ path) k = crashes (
      rw
        (k (length (before path ++ inorder s)) (
          omega (
            arith,
            length-append (before path) (inorder s),
            length-append (before path ++ (inorder s ++ b ∷ [])) (inorder l),
            length-append (before path) (inorder s ++ b ∷ []),
            length-append (inorder s) (b ∷ []),
          )))
        refl)
  next_alive-Alive gone c l a tip (left_of d b s ∷ path) k =
      elim (Bool-cases (deleted (length (before path ++ inorder (node c l a tip))) gone)) [
        | inl e ↦ crashes (rw e refl)
        | inr e ↦
            moves (record { color = d; left = node c l a tip; elem = b; right = s; path = path })
              (rw e refl) refl
      ]
  next_alive-Alive gone c l a (node d m b s) path k =
      moves (leftmost d m b s (right_of l c a ∷ path)) refl refl

  abbrev right_child : Tree A → Bool
  right_child tip = false
  right_child (node c l a tip) = false
  right_child (node c l a (node d m b s)) = true

  length-whole :
      (h : Hook A) → length (inorder (whole h)) ≡ suc (length (front h) + length (rest h))
  length-whole h =
      ap length (inorder-whole h) ∙ omega (arith, length-append (front h) (h.elem ∷ rest h))

  no_right : (h : Hook A) → h.path ≡ [] → h.right ≡ tip → right_child (whole h) ≡ false
  unfolding zip
  no_right h p q = rw p (rw q refl)

  next_step :
      (h h' : Hook A) → next h ≡ some h' → (whole h' ≡ whole h) × (rest h ≡ h'.elem ∷ rest h')
  next_step h h' n = elim (next-Heads h) [
    | last e o ↦ absurd (cc (e, n))
    | goes g e w o ↦
        let same : g ≡ h' = cc (e, n) in
        (ap whole (sym same) ∙ w, o ∙ ap (λ k. k.elem ∷ rest k) same)
  ]

  clear_loop-undefined :
      (fuel : ℕ) (gone : List ℕ) (h : Hook A)
      → length (rest h) < fuel
      → AllGone gone (length (front h))
      → right_child (whole h) ≡ true
      → clear_loop fuel gone (some h) ≡ undefined
  unfolding clear_loop zip
  clear_loop-undefined zero gone h f k r = absurd (omega (arith, f))
  clear_loop-undefined (suc fuel) gone h f k r =
      elim (next_alive-Alive gone h.color h.left h.elem h.right h.path k) [
        | crashes e ↦ rw (e, clear_loop) refl
        | ends e p q ↦ absurd (cc (no_right h p q))
        | moves h' e n ↦
            let (w, o) = next_step h h' n in
            let one : length (front h') ≡ suc (length (front h)) = omega (
              arith,
              length-whole h,
              length-whole h',
              ap (λ t. length (inorder t)) w,
              ap length o,
            ) in
            rw (e, clear_loop)
              (clear_loop-undefined fuel (length (front h) ∷ gone) h'
                (omega (arith, ap length o, f))
                (subst (AllGone (length (front h) ∷ gone)) (sym one)
                  (AllGone-next gone (length (front h)) k))
                (ap right_child w ∙ r))
      ]

  -- The tree is deleted under the loop when its root has a right child.
  pub clear_and_dispose-undefined :
      (c : Color) (l : Tree A) (a : A) (d : Color) (m : Tree A) (b : A) (r : Tree A)
      → clear_and_dispose (node c l a (node d m b r)) ≡ undefined
  unfolding clear_and_dispose zip
  clear_and_dispose-undefined c l a d m b r =
      let t = node c l a (node d m b r) in
      elim (leftmost-Heads c l a (node d m b r) []) [
        | last e o ↦ absurd (cc e)
        | goes h e w o ↦
            let same : leftmost c l a (node d m b r) [] ≡ h = cc e in
            let none_before : length (front h) ≡ 0 = omega (
              arith,
              length-whole h,
              ap (λ u. length (inorder u)) w,
              ap length (sym (append-nil (inorder t)) ∙ o),
            ) in
            rw same (
              clear_loop-undefined (length (inorder t)) [] h
                (omega (arith, length-whole h, ap (λ u. length (inorder u)) w))
                (λ i k. absurd (omega (arith, k, none_before))) (ap right_child w))
      ]
