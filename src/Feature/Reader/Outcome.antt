-- ===== src/Feature/Reader/Outcome.antt =====
-- Postconditions on a run of the reader: it does not run out of fuel, and what it returns satisfies
-- a predicate.
use go_mathsearch.Base.{◌≡◌, refl, Bool, true, false, if◌then◌else◌, ◌≢◌, ℕ, subst}
use go_mathsearch.Feature.Reader.{Result, ok, error_at, out_of_fuel, ◌>>=◌, Message}

pub data Outcome {ℓ κ} {A : Type ℓ} (P : A → Type κ) : Result A → Type (ℓ ⊔ κ) where
  returned : {a : A} → P a → Outcome P (ok a)
  refused : {p : ℕ} {m : Message} → Outcome P (error_at p m)

module _ {ℓ κ} {A : Type ℓ} {P : A → Type κ} where
  pub Outcome-eq_ok : {r : Result A} {a : A} → Outcome P r → r ≡ ok a → P a
  Outcome-eq_ok (returned h) e = subst P (cc) h
  Outcome-eq_ok refused e = cc

  pub Outcome-ne_out_of_fuel : {r : Result A} → Outcome P r → r ≢ out_of_fuel
  Outcome-ne_out_of_fuel (returned h) = cc
  Outcome-ne_out_of_fuel refused = cc

  pub Outcome-bind {ℓ' κ'} :
      {B : Type ℓ'} {Q : B → Type κ'} {r : Result A} {f : A → Result B}
      → Outcome P r
      → ((a : A) → P a → Outcome Q (f a))
      → Outcome Q (r >>= f)
  Outcome-bind (returned {a} h) k = k a h
  Outcome-bind refused k = refused

  pub Outcome-if :
      (b : Bool) {x y : Result A}
      → (b ≡ true → Outcome P x)
      → (b ≡ false → Outcome P y)
      → Outcome P (if b then x else y)
  Outcome-if true hx hy = hx refl
  Outcome-if false hx hy = hy refl

  pub Outcome-imp {κ'} :
      {Q : A → Type κ'} {r : Result A} → Outcome P r → ((a : A) → P a → Q a) → Outcome Q r
  Outcome-imp (returned {a} h) k = returned (k a h)
  Outcome-imp refused k = refused
