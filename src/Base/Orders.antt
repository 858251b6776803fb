-- ===== src/Base/Orders.antt =====
-- What `sort_by` leaves: the same elements, in the order that it is given.
use mathlib.Core.List.Permᴰ
use mathlib.Core.Path.{◌≡◌, refl, ◌∙◌}
use mathlib.Core.Bool.{Bool, true, false, ◌||◌}
use mathlib.Core.Logic.{inl, inr}
use mathlib.Core.List.{List, [], ◌∷◌, Permᴰ}
use native.Mathlib.Omega.{arith}
use go_mathsearch.Base.Tests.{Bool-cases}
use go_mathsearch.Base.Equality.{Eq, ◌==◌, ==_comm, contains, IsDistinct}
use go_mathsearch.Base.Lists.{All}
use go_mathsearch.Base.Sorting.{insert_by, sort_by, insert_by-All}

module _ {ℓ} {A : Type ℓ} (lt : A → A → Bool) where
  insert_by-IsPerm : (x : A) (xs : List A) → Permᴰ (insert_by lt x xs) (x ∷ xs)
  unfolding insert_by
  insert_by-IsPerm x [] = Permᴰ.cons refl Permᴰ.nil
  insert_by-IsPerm x (y ∷ ys) = elim (Bool-cases (lt y x)) [
    | inl less ↦
        rw less (Permᴰ.trans (Permᴰ.cons refl (insert_by-IsPerm x ys)) (Permᴰ.swap refl refl))
    | inr other ↦ rw other (Permᴰ.refl (x ∷ y ∷ ys))
  ]

  pub sort_by-IsPerm : (xs : List A) → Permᴰ (sort_by lt xs) xs
  unfolding sort_by
  sort_by-IsPerm [] = Permᴰ.nil
  sort_by-IsPerm (x ∷ xs) =
      Permᴰ.trans (insert_by-IsPerm x (sort_by lt xs)) (Permᴰ.cons refl (sort_by-IsPerm xs))

  -- No element is less than one before it.
  abbrev pub IsOrdered : List A → Type ℓ
  IsOrdered [] = Unit
  IsOrdered (x ∷ xs) = All (λ y. lt y x ≡ false) xs × IsOrdered xs

  -- An order that compares as numbers do.
  abbrev pub IsWeak : Type ℓ
  IsWeak =
      ((x y : A) → lt x y ≡ true → lt y x ≡ false)
      × ((x y z : A) → lt y x ≡ false → lt z y ≡ false → lt z x ≡ false)

  All-weaken :
      (x y : A) (ys : List A)
      → IsWeak
      → lt y x ≡ false
      → All (λ z. lt z y ≡ false) ys
      → All (λ z. lt z x ≡ false) ys
  All-weaken x y [] w h a = tt
  All-weaken x y (z ∷ zs) w h a = (w.1 x y z h a.0, All-weaken x y zs w h a.1)

  insert_by-IsOrdered :
      (x : A) (xs : List A) → IsWeak → IsOrdered xs → IsOrdered (insert_by lt x xs)
  unfolding insert_by
  insert_by-IsOrdered x [] w o = (tt, tt)
  insert_by-IsOrdered x (y ∷ ys) w o = elim (Bool-cases (lt y x)) [
    | inl less ↦ rw less (
      insert_by-All lt (λ z. lt z y ≡ false) x ys (w.0 y x less) o.0,
      insert_by-IsOrdered x ys w o.1,
    )
    | inr other ↦ rw other ((other, All-weaken x y ys w other o.0), o)
  ]

  pub sort_by-IsOrdered : (xs : List A) → IsWeak → IsOrdered (sort_by lt xs)
  unfolding sort_by
  sort_by-IsOrdered [] w = tt
  sort_by-IsOrdered (x ∷ xs) w = insert_by-IsOrdered x (sort_by lt xs) w (sort_by-IsOrdered xs w)

  module _ ⦃e : Eq A⦄ where
    contains-insert_by :
        (a x : A) (xs : List A) → contains a (insert_by lt x xs) ≡ (x == a || contains a xs)
    unfolding contains insert_by
    contains-insert_by a x [] = refl
    contains-insert_by a x (y ∷ ys) = ground (arith, contains-insert_by a x ys)

    contains-sort_by : (a : A) (xs : List A) → contains a (sort_by lt xs) ≡ contains a xs
    unfolding contains sort_by
    contains-sort_by a [] = refl
    contains-sort_by a (x ∷ xs) =
        ground (arith, contains-insert_by a x (sort_by lt xs), contains-sort_by a xs)

    insert_by-IsDistinct :
        (x : A) (xs : List A)
        → contains x xs ≡ false
        → IsDistinct xs
        → IsDistinct (insert_by lt x xs)
    unfolding contains insert_by
    insert_by-IsDistinct x [] h d = (refl, tt)
    insert_by-IsDistinct x (y ∷ ys) h d = elim (Bool-cases (lt y x)) [
      | inl less ↦ rw less (
        ground (arith, contains-insert_by y x ys, ==_comm x y, h, d.0),
        insert_by-IsDistinct x ys (ground (arith, h)) d.1,
      )
      | inr other ↦ rw other (h, d)
    ]

    pub sort_by-IsDistinct : (xs : List A) → IsDistinct xs → IsDistinct (sort_by lt xs)
    unfolding sort_by
    sort_by-IsDistinct [] d = tt
    sort_by-IsDistinct (x ∷ xs) d =
        insert_by-IsDistinct x (sort_by lt xs) (contains-sort_by x xs ∙ d.0)
          (sort_by-IsDistinct xs d.1)
