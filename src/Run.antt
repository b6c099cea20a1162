-- ===== src/Run.antt =====
-- How a handler of the daemons ends: with a value, by an exception that leaves it, at a failed
-- BOOST_ASSERT, or in undefined behaviour. An exception leaves `io_service::run` and ends the
-- daemon, so what the object holds after the last three is not modelled.
use mathlib.Core.Path.{subst}
use odi_mm.Base.{◌≡◌, refl, sym, ap, if◌then◌else◌, Bool, true, false}

pub data Run {ℓ} (A : Type ℓ) : Type ℓ where
  done : A → Run A
  threw : Run A
  asserted : Run A
  undefined : Run A

infixl 5 ◌>>=◌
unfoldable pub ◌>>=◌ {ℓ κ} : {A : Type ℓ} {B : Type κ} → Run A → (A → Run B) → Run B
done a >>= f = f a
threw >>= f = threw
asserted >>= f = asserted
undefined >>= f = undefined

abbrev pub check : Bool → Run (Unit {0})
check true = done tt
check false = asserted

infixl 5 ◌>>◌
abbrev pub ◌>>◌ {ℓ} : {B : Type ℓ} → Run (Unit {0}) → Run B → Run B
m >> k = m >>= λ _. k

abbrev done_or {ℓ} : {A : Type ℓ} → A → Run A → A
done_or d (done a) = a
done_or d threw = d
done_or d asserted = d
done_or d undefined = d

pub done-injective {ℓ} : {A : Type ℓ} (a b : A) → done a ≡ done b → a ≡ b
done-injective a b e = ap (done_or a) e

pub unless-done {ℓ} :
    {A : Type ℓ} (b : Bool) (x y : A)
    → (if b then threw else done x) ≡ done y
    → (b ≡ false) × (y ≡ x)
unless-done true x y e = cc
unless-done false x y e = (refl, sym (done-injective x y e))

-- What holds of the value of a run that ends with one, and a rule for each way to build a run.
pub record Ensures {ℓ κ} {A : Type ℓ} (P : A → Type κ) (m : Run A) : Type (ℓ ⊔ κ) where
  pub at : (a : A) → m ≡ done a → P a

module _ {ℓ κ} {A : Type ℓ} (P : A → Type κ) where
  pub Ensures-done : (a : A) → P a → Ensures P (done a)
  Ensures-done a h = record { at = λ b e. subst P (done-injective a b e) h }

  pub Ensures-threw : Ensures P threw
  Ensures-threw = record { at = λ b e. absurd (cc e) }

  pub Ensures-if :
      (b : Bool) (x y : Run A)
      → (b ≡ true → Ensures P x)
      → (b ≡ false → Ensures P y)
      → Ensures P (if b then x else y)
  Ensures-if true x y hx hy = hx refl
  Ensures-if false x y hx hy = hy refl

module _ {ℓ κ μ ν} {A : Type ℓ} {B : Type κ} (Q : A → Type μ) (P : B → Type ν) where
  pub Ensures-bind :
      (m : Run A) (f : A → Run B)
      → Ensures Q m
      → ((a : A) → Q a → Ensures P (f a))
      → Ensures P (m >>= f)
  unfolding ◌>>=◌
  Ensures-bind (done a) f hm hf = hf a (hm.at a refl)
  Ensures-bind threw f hm hf = record { at = λ b e. absurd (cc e) }
  Ensures-bind asserted f hm hf = record { at = λ b e. absurd (cc e) }
  Ensures-bind undefined f hm hf = record { at = λ b e. absurd (cc e) }

pub Ensures-check : (b : Bool) → Ensures (λ _. b ≡ true) (check b)
Ensures-check true = record { at = λ u e. refl }
Ensures-check false = record { at = λ u e. absurd (cc e) }

-- What is known of the steps may be used of the whole.
pub Ensures-itself {ℓ} : {A : Type ℓ} (m : Run A) → Ensures (λ a. m ≡ done a) m
Ensures-itself m = record { at = λ a e. e }
