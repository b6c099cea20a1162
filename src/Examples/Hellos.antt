-- ===== src/Examples/Hellos.antt =====
-- Hello messages of PIM at concrete routers.
use odi_mm.Base.{if◌then◌else◌, ltb, ℕ, ◌≡◌, refl, List, [], ◌∷◌, some, none, length, map, arith}
use odi_mm.Samples.{wide_addresses}
use odi_mm.Types.{AddressOps}
use odi_mm.Pim.{HelloMsg, hello_gen, read_message}
use odi_mm.Pim.Hello.{IsHello, hello_gen-reads}

-- A message without a priority, and with two addresses.
abbrev neighbour : HelloMsg ℕ
neighbour = record {
  holdtime = some 105;
  dr_priority = none;
  generation_id = some 70000;
  maddr_list = 17 ∷ 18 ∷ [];
}

some_inj : {a b : ℕ} → some a ≡ some b → a ≡ b
some_inj {a} {b} e = cc e

neighbour-IsHello : IsHello ⦃ops = wide_addresses⦄ neighbour
neighbour-IsHello = record {
  holdtime = λ v e. omega (arith, some_inj e);
  dr_priority = λ v e. absurd (cc e);
  generation_id = λ v e. omega (arith, some_inj e);
  wide = (refl, (refl, tt));
  few = omega arith;
}

hello_gen-reads_example :
    (out : List ℕ) × (length out ≡ 58)
    × (read_message out
        ≡ some (record {
          holdtime = some 105;
          dr_priority = none;
          generation_id = some 70000;
          maddr_list = map (AddressOps.to_bytes wide_addresses) (17 ∷ 18 ∷ []);
        }))
    × ((room : ℕ)
        → hello_gen ⦃ops = wide_addresses⦄ neighbour room
          ≡ (if ltb room 58 then none else some out))
hello_gen-reads_example = hello_gen-reads ⦃ops = wide_addresses⦄ neighbour neighbour-IsHello

-- There is no room for the second address.
hello_gen_full : hello_gen ⦃ops = wide_addresses⦄ neighbour 57 ≡ none
unfolding hello_gen
hello_gen_full = refl
