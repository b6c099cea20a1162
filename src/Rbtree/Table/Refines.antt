-- ===== src/Rbtree/Table/Refines.antt =====
-- The container of inc/opmip/rbtree.hpp behind an association of keys with elements, which is how
-- the indexes of the node database are modelled, and the order of its nodes by identifier
-- (`node::compare` of inc/opmip/pmip/node_db.hpp).
use odi_mm.Base.{
  ℕ, ◌≡◌, ◌≢◌, refl, sym, ap, ◌∙◌, ◌⊎◌, inl, inr, Bool, true, false, List, [], Option, none, some,
  arith, Bool-cases, Option-cases, if◌then◌else◌, Eq, ◌==◌, Assoc, put, erase, find-put, find-erase,
}
use odi_mm.Base
use mathlib.Core.Path.{subst}
use odi_mm.Run.{done}
use odi_mm.Types.Order.{bytes_lt, bytes_lt_irrefl, bytes_lt_trans, bytes_lt_connected}
use odi_mm.NodeDb.{RouterNode, MobileNode}
use odi_mm.Rbtree.{Tree}
use odi_mm.Rbtree.Invariant.{inorder, IsRedBlack}
use odi_mm.Rbtree.Removal.{Hook}
use odi_mm.Rbtree.Walk.Order.{inorder-whole, whole, front, rest}
use odi_mm.Rbtree.Table.{Keyed, insert_unique, remove}
use odi_mm.Rbtree.Table.Keys.{
  IsSorted, sorted_lookup, sorted_add, IsSorted-split, sorted_lookup-Behind,
}
use odi_mm.Rbtree.Table.Contents.{
  elem_at, elem_at-sorted_lookup, sorted_lookup-sorted_add_self, sorted_lookup-sorted_add_other,
  sorted_add_present, sorted_add-IsSorted, sorted_lookup-Before, sorted_lookup_gone, IsSorted-join,
  remove-Yields,
}
use odi_mm.Rbtree.Table.Insertion.{is_none, insert_unique-Inserted}

unfoldable pub mobile_by_id : {A : Type 0} → Keyed (MobileNode A) (List ℕ)
mobile_by_id = record {
  key = λ n. n.id;
  less = bytes_lt;
  less_irrefl = bytes_lt_irrefl;
  less_trans = bytes_lt_trans;
  less_total = bytes_lt_connected;
}

unfoldable pub router_by_id : {A : Type 0} → Keyed (RouterNode A) (List ℕ)
router_by_id = record {
  key = λ n. n.id;
  less = bytes_lt;
  less_irrefl = bytes_lt_irrefl;
  less_trans = bytes_lt_trans;
  less_total = bytes_lt_connected;
}

module _ {ℓ κ} {A : Type ℓ} {K : Type κ} ⦃e : Eq K⦄ (keyed : Keyed A K) where
  -- The tree is a red-black tree in order, and `find` on it gives what the association holds.
  pub record Represents (t : Tree A) (m : Assoc K A) : Type (ℓ ⊔ κ) where
    pub redblack : IsRedBlack t
    pub sorted : IsSorted keyed (inorder t)
    pub agrees : (k : K) → elem_at keyed k t ≡ Base.find k m

  -- `sorted_add` on the list is `put` under a new key.
  sorted_lookup-sorted_add-put :
      (x : A) (xs : List A) (m : Assoc K A) (k : K)
      → sorted_lookup keyed (keyed.key x) xs ≡ none
      → sorted_lookup keyed k xs ≡ Base.find k m
      → sorted_lookup keyed k (sorted_add keyed x xs) ≡ Base.find k (put (keyed.key x) x m)
  sorted_lookup-sorted_add-put x xs m k n h = elim (Bool-cases (keyed.key x == k)) [
    | inl same ↦
        let key_is : keyed.key x ≡ k = (e.equals_iff (keyed.key x) k).0 same in
        subst (λ j. sorted_lookup keyed j (sorted_add keyed x xs) ≡ some x) key_is
          (sorted_lookup-sorted_add_self keyed x xs n)
        ∙ sym (find-put (keyed.key x) k x m ∙ rw same refl)
    | inr other ↦
        let key_is_not : k ≢ keyed.key x =
          λ q. cc (other, (e.equals_iff (keyed.key x) k).1 (sym q)) in
        sorted_lookup-sorted_add_other keyed k x xs key_is_not
        ∙ h
        ∙ sym (find-put (keyed.key x) k x m ∙ rw other refl)
  ]

  by_key :
      (x : A) (xs : List A) (m : Assoc K A) (k : K) (o : Option A)
      → Base.find (keyed.key x) m ≡ o
      → sorted_lookup keyed (keyed.key x) xs ≡ Base.find (keyed.key x) m
      → sorted_lookup keyed k xs ≡ Base.find k m
      → sorted_lookup keyed k (sorted_add keyed x xs)
        ≡ Base.find k (if is_none (Base.find (keyed.key x) m) then put (keyed.key x) x m else m)
  by_key x xs m k none o known h = rw o (sorted_lookup-sorted_add-put x xs m k (known ∙ o) h)
  by_key x xs m k (some a) o known h =
      rw o (ap (sorted_lookup keyed k) (sorted_add_present keyed x a xs (known ∙ o)) ∙ h)

  -- `insert_unique` says whether the key is new, and adds the element only then.
  pub insert_unique-Represents :
      (x : A) (t : Tree A) (m : Assoc K A)
      → Represents t m
      → let fresh = is_none (Base.find (keyed.key x) m) in
        (t' : Tree A) × (insert_unique keyed x t ≡ done (t', fresh))
        × Represents t' (if fresh then put (keyed.key x) x m else m)
  insert_unique-Represents x t m r =
      let i = insert_unique-Inserted keyed x t r.redblack r.sorted in
      let known =
        sym (elem_at-sorted_lookup keyed (keyed.key x) t r.sorted) ∙ r.agrees (keyed.key x) in
      let sorted : IsSorted keyed (inorder i.tree) =
        subst (IsSorted keyed) (sym i.order) (sorted_add-IsSorted keyed x (inorder t) r.sorted) in
      let listed = λ (k : K). sym (elem_at-sorted_lookup keyed k t r.sorted) ∙ r.agrees k in
      (
        i.tree,
        i.returns ∙ ap (λ b. done (i.tree, b)) (i.missing_key ∙ ap is_none known),
        record {
          redblack = i.redblack;
          sorted = sorted;
          agrees = λ k.
              elem_at-sorted_lookup keyed k i.tree sorted
              ∙ ap (sorted_lookup keyed k) i.order
              ∙ by_key x (inorder t) m k (Base.find (keyed.key x) m) refl known (listed k);
        },
      )

  by_gone :
      (j : K) (xs : List A) (m : Assoc K A) (k : K)
      → sorted_lookup keyed j xs ≡ none
      → (k ≢ j → sorted_lookup keyed k xs ≡ Base.find k m)
      → sorted_lookup keyed k xs ≡ Base.find k (erase j m)
  by_gone j xs m k gone kept = elim (Bool-cases (j == k)) [
    | inl same ↦
        subst (λ i. sorted_lookup keyed i xs ≡ none) ((e.equals_iff j k).0 same) gone
        ∙ sym (find-erase j k m ∙ rw same refl)
    | inr other ↦
        kept (λ q. cc (other, (e.equals_iff j k).1 (sym q)))
        ∙ sym (find-erase j k m ∙ rw other refl)
  ]

  -- `remove` erases the key of the hook.
  pub remove-Represents :
      (h : Hook A) (m : Assoc K A)
      → Represents (whole h) m
      → (t : Tree A) × (remove h ≡ done t) × Represents t (erase (keyed.key h.elem) m)
  remove-Represents h m r =
      let y = remove-Yields keyed h r.redblack in
      let listed = subst (IsSorted keyed) (inorder-whole h) r.sorted in
      let (behind, low, ahead, high) = IsSorted-split keyed (front h) h.elem (rest h) listed in
      let sorted : IsSorted keyed (inorder y.tree) =
        subst (IsSorted keyed) (sym y.order)
          (IsSorted-join keyed (front h) h.elem (rest h) listed) in
      let gone : sorted_lookup keyed (keyed.key h.elem) (inorder y.tree) ≡ none =
        ap (sorted_lookup keyed (keyed.key h.elem)) y.order
        ∙ sorted_lookup-Behind keyed (keyed.key h.elem) (front h) (rest h) behind
        ∙ sorted_lookup-Before keyed (keyed.key h.elem) (rest h) ahead in
      let kept : (k : K)
          → k ≢ keyed.key h.elem
          → sorted_lookup keyed k (inorder y.tree) ≡ Base.find k m =
        λ k n.
          ap (sorted_lookup keyed k) y.order
          ∙ sorted_lookup_gone keyed k (front h) h.elem (rest h) n ahead
          ∙ sym (ap (sorted_lookup keyed k) (inorder-whole h))
          ∙ sym (elem_at-sorted_lookup keyed k (whole h) r.sorted)
          ∙ r.agrees k in
      (
        y.tree,
        y.returns,
        record {
          redblack = y.redblack;
          sorted = sorted;
          agrees = λ k.
              elem_at-sorted_lookup keyed k y.tree sorted
              ∙ by_gone (keyed.key h.elem) (inorder y.tree) m k gone (kept k);
        },
      )
