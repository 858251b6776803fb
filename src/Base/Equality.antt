-- ===== src/Base/Equality.antt =====
-- Types with a Boolean equality (Go's `==`), and sets kept as lists without repetitions.
use Prim.Native.Nat.{ℕ}
use mathlib.Core.Path.{◌≡◌, refl, ap, ap₂}
use mathlib.Core.Logic.{◌↔◌, inl, inr}
use mathlib.Core.Bool.{Bool, true, false, ◌||◌, ◌&&◌}
use mathlib.Core.List.{List, [], ◌∷◌, ◌++◌}
use native.Mathlib.Omega.{arith}
use go_mathsearch.Base.Tests.{nat_beq, nat_beq_iff, if◌then◌else◌, Bool-cases}

pub record Eq {ℓ} (A : Type ℓ) : Type ℓ where
  pub beq : A → A → Bool
  pub beq_iff : (x y : A) → (beq x y ≡ true) ↔ (x ≡ y)

infix 50 ◌==◌
abbrev pub ◌==◌ {ℓ} : {A : Type ℓ} ⦃eq : Eq A⦄ → A → A → Bool
◌==◌ ⦃eq⦄ = eq.beq

instance abbrev pub nat_eq : Eq ℕ
nat_eq = record { beq = nat_beq; beq_iff = nat_beq_iff }

abbrev pub pair_beq {ℓ κ} : {A : Type ℓ} {B : Type κ} ⦃a : Eq A⦄ ⦃b : Eq B⦄ → A × B → A × B → Bool
pair_beq p q = p.0 == q.0 && p.1 == q.1

pub pair_beq_iff {ℓ κ} :
    {A : Type ℓ} {B : Type κ} ⦃a : Eq A⦄ ⦃b : Eq B⦄ (p q : A × B) → (pair_beq p q ≡ true) ↔ (p ≡ q)
pair_beq_iff ⦃a⦄ ⦃b⦄ p q = (
  λ h.
      ap₂ (λ x y. (x, y)) ((a.beq_iff p.0 q.0).0 (ground arith))
        ((b.beq_iff p.1 q.1).0 (ground arith)),
  λ h.
      ground
        (arith, (a.beq_iff p.0 q.0).1 (ap (λ x. x.0) h), (b.beq_iff p.1 q.1).1 (ap (λ x. x.1) h)),
)

instance abbrev pub pair_eq {ℓ κ} : {A : Type ℓ} {B : Type κ} ⦃a : Eq A⦄ ⦃b : Eq B⦄ → Eq (A × B)
pair_eq = record { beq = pair_beq; beq_iff = pair_beq_iff }

module _ {ℓ} {A : Type ℓ} ⦃e : Eq A⦄ where
  pub ==_iff : (a b : A) → ((a == b) ≡ true) ↔ (a ≡ b)
  ==_iff a b = e.beq_iff a b

  pub ==_refl : (a : A) → (a == a) ≡ true
  ==_refl a = (e.beq_iff a a).1 refl

  pub ==_comm : (a b : A) → (a == b) ≡ (b == a)
  ==_comm a b = ground (arith, e.beq_iff a b, e.beq_iff b a)

  unfoldable pub contains : A → List A → Bool
  contains a [] = false
  contains a (x ∷ xs) = x == a || contains a xs

  -- A set insertion: `m[a] = true`.
  unfoldable pub add : A → List A → List A
  add a xs = if contains a xs then xs else xs ++ a ∷ []

  -- `m` after `m[x] = true` for each `x` in turn.
  unfoldable pub add_all : List A → List A → List A
  add_all seen [] = seen
  add_all seen (x ∷ xs) = add_all (add x seen) xs

  -- No element occurs twice.
  abbrev pub IsDistinct : List A → Type 0
  IsDistinct [] = Unit
  IsDistinct (x ∷ xs) = (contains x xs ≡ false) × IsDistinct xs

  pub add_old : (x : A) (xs : List A) → contains x xs ≡ true → add x xs ≡ xs
  unfolding add
  add_old x xs h = rw h

  pub add_new : (x : A) (xs : List A) → contains x xs ≡ false → add x xs ≡ xs ++ x ∷ []
  unfolding add
  add_new x xs h = rw h

  -- An element of a list is not one that the list has not.
  pub apart :
      (x a : A) (xs : List A) → contains x xs ≡ false → contains a xs ≡ true → (x == a) ≡ false
  apart x a xs h k = elim (Bool-cases (x == a)) [
    | inl same ↦ cc (h, k, ap (λ b. contains b xs) ((e.beq_iff x a).0 same))
    | inr other ↦ other
  ]

  pub contains-append :
      (a : A) (xs ys : List A) → contains a (xs ++ ys) ≡ (contains a xs || contains a ys)
  unfolding contains
  contains-append a [] ys = refl
  contains-append a (x ∷ xs) ys = ground (arith, contains-append a xs ys)

  pub contains-concat :
      (a x : A) (xs : List A) → contains a (xs ++ x ∷ []) ≡ (contains a xs || x == a)
  unfolding contains
  contains-concat a x xs = ground (arith, contains-append a xs (x ∷ []))

  pub contains-add : (a x : A) (xs : List A) → contains a (add x xs) ≡ (contains a xs || x == a)
  unfolding add
  contains-add a x xs = ground (arith, contains-concat a x xs, e.beq_iff x a, contains-eq x a xs)
    where
      contains-eq : (x a : A) (xs : List A) → x ≡ a → contains x xs ≡ contains a xs
      contains-eq x a xs p = ap (λ y. contains y xs) p

  pub contains-add_all :
      (a : A) (seen xs : List A) → contains a (add_all seen xs) ≡ (contains a seen || contains a xs)
  unfolding add_all contains
  contains-add_all a seen [] = ground arith
  contains-add_all a seen (x ∷ xs) =
      ground (arith, contains-add_all a (add x seen) xs, contains-add a x seen)

  pub IsDistinct-concat :
      (x : A) (xs : List A) → contains x xs ≡ false → IsDistinct xs → IsDistinct (xs ++ x ∷ [])
  unfolding contains
  IsDistinct-concat x [] h d = (refl, tt)
  IsDistinct-concat x (y ∷ ys) h d = (
    ground (arith, contains-concat y x ys, ==_comm x y),
    IsDistinct-concat x ys (ground arith) d.1,
  )

  pub add-IsDistinct : (x : A) (xs : List A) → IsDistinct xs → IsDistinct (add x xs)
  unfolding add
  add-IsDistinct x xs d = elim (Bool-cases (contains x xs)) [
    | inl old ↦ rw old d
    | inr new ↦ rw new (IsDistinct-concat x xs new d)
  ]

  pub add_all-IsDistinct : (seen xs : List A) → IsDistinct seen → IsDistinct (add_all seen xs)
  unfolding add_all
  add_all-IsDistinct seen [] d = d
  add_all-IsDistinct seen (x ∷ xs) d = add_all-IsDistinct (add x seen) xs (add-IsDistinct x seen d)
