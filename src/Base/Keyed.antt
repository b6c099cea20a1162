-- ===== src/Base/Keyed.antt =====
-- Containers with unique keys: `std::map`, `boost::ptr_map`, `std::set` and the intrusive trees
-- that bcache, bulist and node_db index their entries by. The order of the entries is not kept.
use mathlib.Core.Path.{◌≡◌, refl}
use mathlib.Core.Logic.{◌⊎◌}
use mathlib.Core.List.{List, [], ◌∷◌}
use mathlib.Core.Option.{Option, none, some}
use native.Mathlib.Omega.{arith}
use odi_mm.Base.Tests.{if◌then◌else◌}
use odi_mm.Base.Equality.{Eq, ◌==◌}

abbrev pub Assoc {ℓ κ} : Type ℓ → Type κ → Type (ℓ ⊔ κ)
Assoc K V = List (K × V)

module _ {ℓ κ} {K : Type ℓ} {V : Type κ} ⦃e : Eq K⦄ where
  unfoldable pub find : K → Assoc K V → Option V
  find key [] = none
  find key ((i, held) ∷ rest) = if i == key then some held else find key rest

  -- The value under a key is written, and added if there was none.
  unfoldable pub put : K → V → Assoc K V → Assoc K V
  put key new [] = (key, new) ∷ []
  put key new ((i, old) ∷ rest) =
      if i == key then (key, new) ∷ rest else (i, old) ∷ put key new rest

  unfoldable pub erase : K → Assoc K V → Assoc K V
  erase k [] = []
  erase k ((j, v) ∷ m) = let rest = erase k m in if j == k then rest else (j, v) ∷ rest

  pub find-put :
      (k j : K) (v : V) (m : Assoc K V) → find j (put k v m) ≡ (if k == j then some v else find j m)
  unfolding find put
  find-put k j v [] = refl
  find-put k j v ((i, w) ∷ m) =
      ground (arith, e.equals_iff k j, e.equals_iff i k, e.equals_iff i j, find-put k j v m)

  pub find-erase :
      (k j : K) (m : Assoc K V) → find j (erase k m) ≡ (if k == j then none else find j m)
  unfolding find erase
  find-erase k j [] = ground arith
  find-erase k j ((i, w) ∷ m) =
      ground (arith, e.equals_iff k j, e.equals_iff i k, e.equals_iff i j, find-erase k j m)

  -- What is found after a write was written, or was there.
  pub find-put_cases :
      (k j : K) (v x : V) (m : Assoc K V)
      → find j (put k v m) ≡ some x
      → ((k ≡ j) × (v ≡ x)) ⊎ (find j m ≡ some x)
  find-put_cases k j v x m h = ground (arith, find-put k j v m, e.equals_iff k j)

  pub find-erase-some :
      (k j : K) (x : V) (m : Assoc K V) → find j (erase k m) ≡ some x → find j m ≡ some x
  find-erase-some k j x m h = ground (arith, find-erase k j m)

pub ruleset assoc_laws = (find-put, find-erase)
