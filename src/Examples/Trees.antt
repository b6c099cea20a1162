-- ===== src/Examples/Trees.antt =====
-- The theorems about red-black trees at concrete trees, and tests of their operations.
use odi_mm.Base.{
  suc, ℕ, ◌≤◌, ◌+◌, ◌/◌, ◌^◌, ◌≡◌, refl, true, false, [], ◌∷◌, length, arith, ltb, nat_eq, Assoc,
  put, erase, find, if◌then◌else◌,
}
use odi_mm.Run.{done, undefined}
use odi_mm.Rbtree.{Tree, tip, node, red, black, left_of, right_of, zip}
use odi_mm.Rbtree.Invariant.{inorder}
use odi_mm.Rbtree.Removal.{Hook}
use odi_mm.Rbtree.Walk.{next}
use odi_mm.Rbtree.Walk.Order.{Heads, next-Heads}
use odi_mm.Rbtree.Table
use odi_mm.Rbtree.Table.{Keyed, insert_unique, remove}
use odi_mm.Rbtree.Table.Insertion.{is_none}
use odi_mm.Rbtree.Table.Refines.{Represents, insert_unique-Represents, remove-Represents}
use odi_mm.Rbtree.Table.Dispose.{clear_and_dispose, clear_and_dispose-undefined}
use odi_mm.Rbtree.Depth.{find-length}

ltb_irrefl : (k : ℕ) → ltb k k ≡ false
ltb_irrefl k = ground arith

ltb_trans : (i j k : ℕ) → ltb i j ≡ true → ltb j k ≡ true → ltb i k ≡ true
ltb_trans i j k p q = ground arith

ltb_total : (i j : ℕ) → ltb i j ≡ false → ltb j i ≡ false → i ≡ j
ltb_total i j p q = ground arith

abbrev by_number : Keyed ℕ ℕ
by_number = record {
  key = λ n. n;
  less = ltb;
  less_irrefl = ltb_irrefl;
  less_trans = ltb_trans;
  less_total = ltb_total;
}

abbrev three : Tree ℕ
three = node black (node red tip 1 tip) 2 (node red tip 3 tip)

abbrev three_map : Assoc ℕ ℕ
three_map = (1, 1) ∷ (2, 2) ∷ (3, 3) ∷ []

three-Represents : Represents by_number three three_map
unfolding Table.find find
three-Represents = record {
  redblack = record {
    root = refl;
    height = 1;
    balanced = ((refl, refl, refl, refl), (refl, refl, refl, refl));
  };
  sorted = ((refl, (refl, tt)), ((refl, tt), (tt, tt)));
  agrees = λ k. ground arith;
}

insert_unique-Represents_example :
    (t : Tree ℕ) × (insert_unique by_number 4 three ≡ done (t, is_none (find 4 three_map)))
    × Represents by_number t (if is_none (find 4 three_map) then put 4 4 three_map else three_map)
insert_unique-Represents_example =
    insert_unique-Represents by_number 4 three three_map three-Represents

abbrev top : Hook ℕ
top = record {
  color = black;
  left = node red tip 1 tip;
  elem = 2;
  right = node red tip 3 tip;
  path = [];
}

remove-Represents_example :
    (t : Tree ℕ) × (remove top ≡ done t) × Represents by_number t (erase 2 three_map)
unfolding zip
remove-Represents_example = remove-Represents by_number top three_map three-Represents

abbrev last_of_three : Hook ℕ
last_of_three = record {
  color = red;
  left = tip;
  elem = 3;
  right = tip;
  path = right_of (node red tip 1 tip) black 2 ∷ [];
}

find-length_example : 2 ^ suc (length last_of_three.path / 2) ≤ length (inorder three) + 1
unfolding Table.find
find-length_example =
    find-length by_number 3 three last_of_three (three-Represents.redblack)
      (three-Represents.sorted) refl

next-Heads_example : Heads (next top) three (3 ∷ [])
unfolding zip
next-Heads_example = next-Heads top

clear_and_dispose-undefined_example : clear_and_dispose three ≡ undefined
clear_and_dispose-undefined_example =
    clear_and_dispose-undefined black (node red tip 1 tip) 2 red tip 3 tip

-- The smallest tree is deleted without harm.
abbrev two : Tree ℕ
two = node black (node red tip 1 tip) 2 tip

clear_two : clear_and_dispose two ≡ done (1 ∷ 0 ∷ [])
unfolding clear_and_dispose next
clear_two = refl

-- Rotations of an insertion, and a missing black node that goes up.
insert_turns :
    insert_unique by_number 2 (node black (node red tip 1 tip) 3 tip) ≡ done (three, true)
unfolding insert_unique
insert_turns = refl

abbrev black_leaf : Hook ℕ
black_leaf = record {
  color = black;
  left = tip;
  elem = 1;
  right = tip;
  path = left_of black 2 (node black tip 3 tip) ∷ [];
}

remove_up : remove black_leaf ≡ done (node black tip 2 (node red tip 3 tip))
unfolding remove
remove_up = refl
