-- ===== src/Base/Counting.antt =====
-- Sets as lists without repetitions: membership decides their size.
use Prim.Native.Nat.{suc, ◌≤◌}
use mathlib.Core.Path.{◌≡◌, refl, sym, ap, ◌∙◌}
use mathlib.Core.Logic.{◌↔◌, inl, inr}
use mathlib.Core.Bool.{Bool, true, false, ◌&&◌}
use mathlib.Core.List.{List, [], ◌∷◌}
use native.Mathlib.Omega.{arith}
use native.Mathlib.Nat.{le_antisymm}
use go_mathsearch.Base.Tests.{if◌then◌else◌, Bool-cases}
use go_mathsearch.Base.Lists.{length, select}
use go_mathsearch.Base.Equality.{Eq, ◌==◌, ==_comm, contains, IsDistinct, apart}

module _ {ℓ} {A : Type ℓ} ⦃e : Eq A⦄ where
  -- Every element of `xs` is in `ys`.
  abbrev pub Within : List A → List A → Type ℓ
  Within xs ys = (a : A) → contains a xs ≡ true → contains a ys ≡ true

  remove : A → List A → List A
  remove a [] = []
  remove a (x ∷ xs) = if x == a then xs else x ∷ remove a xs

  length-remove :
      (a : A) (xs : List A) → contains a xs ≡ true → suc (length (remove a xs)) ≡ length xs
  unfolding remove contains
  length-remove a [] h = cc
  length-remove a (x ∷ xs) h = elim (Bool-cases (x == a)) [
    | inl same ↦ rw same
    | inr other ↦ rw other (ap suc (length-remove a xs (rw other at h)))
  ]

  contains-remove :
      (a b : A) (xs : List A)
      → (a == b) ≡ false
      → contains b xs ≡ true
      → contains b (remove a xs) ≡ true
  unfolding remove contains
  contains-remove a b [] ne h = h
  contains-remove a b (x ∷ xs) ne h =
      ground (arith, e.beq_iff x a, e.beq_iff x b, e.beq_iff a b, contains-remove a b xs ne)

  -- Distinct elements of a list are no more than its length.
  pub length-le_of_Within : (xs ys : List A) → IsDistinct xs → Within xs ys → length xs ≤ length ys
  unfolding contains
  length-le_of_Within [] ys d w = omega arith
  length-le_of_Within (x ∷ xs) ys d w =
      let here : contains x ys ≡ true = w x (ground (arith, e.beq_iff x x)) in
      let rest =
        length-le_of_Within xs (remove x ys) d.1
          (λ a h. contains-remove x a ys (apart x a xs d.0 h) (w a (later a h))) in
      omega (arith, rest, length-remove x ys here)
    where
      later : (a : A) → contains a xs ≡ true → contains a (x ∷ xs) ≡ true
      later a h = ground arith

  pub length-eq_of_Within :
      (xs ys : List A)
      → IsDistinct xs
      → IsDistinct ys
      → Within xs ys
      → Within ys xs
      → length xs ≡ length ys
  length-eq_of_Within xs ys dx dy v w =
      le_antisymm (length-le_of_Within xs ys dx v) (length-le_of_Within ys xs dy w)

  pub contains-select :
      (p : A → Bool) (a : A) (xs : List A) → contains a (select p xs) ≡ (p a && contains a xs)
  unfolding select contains
  contains-select p a [] = ground arith
  contains-select p a (x ∷ xs) = elim (Bool-cases (x == a)) [
    | inl same ↦
        let px : p x ≡ p a = ap p ((e.beq_iff x a).0 same) in ground (arith, contains-select p a xs)
    | inr other ↦ ground (arith, contains-select p a xs)
  ]

  pub select-IsDistinct : (p : A → Bool) (xs : List A) → IsDistinct xs → IsDistinct (select p xs)
  unfolding select
  select-IsDistinct p [] d = tt
  select-IsDistinct p (x ∷ xs) d = elim (Bool-cases (p x)) [
    | inl keep ↦ rw keep (contains-select p x xs ∙ ground arith, select-IsDistinct p xs d.1)
    | inr drop ↦ rw drop (select-IsDistinct p xs d.1)
  ]

  pub length-select_le : (p : A → Bool) (xs : List A) → length (select p xs) ≤ length xs
  unfolding select
  length-select_le p [] = omega arith
  length-select_le p (x ∷ xs) = ground (arith, length-select_le p xs)

  within_remove :
      (x : A) (ys : List A)
      → contains x ys ≡ true
      → contains x (remove x ys) ≡ false
      → IsDistinct (remove x ys)
      → IsDistinct ys
  unfolding remove contains
  within_remove x [] h k d = tt
  within_remove x (y ∷ ys) h k d = elim (Bool-cases (y == x)) [
    | inl same ↦ (ap (λ z. contains z ys) ((e.beq_iff y x).0 same) ∙ rw same at k, rw same at d)
    | inr other ↦
        let gone : contains x (remove x ys) ≡ false = ground (arith, rw other at k) in
        let rest : IsDistinct (remove x ys) = (rw other at d).1 in
        let apart_y : contains y (remove x ys) ≡ false = (rw other at d).0 in
        (
          elim (Bool-cases (contains y ys)) [
            | inl there ↦ ground (arith, contains-remove x y ys (==_comm x y ∙ other) there)
            | inr absent ↦ absent
          ],
          within_remove x ys (ground arith) gone rest,
        )
  ]

  -- Distinct elements of a list that are as many as it is long are all of it, and it has no repetition.
  pub Within-of_length :
      (xs ys : List A)
      → IsDistinct xs
      → Within xs ys
      → length ys ≤ length xs
      → Within ys xs × IsDistinct ys
  unfolding contains
  Within-of_length [] [] d w le = (w, tt)
  Within-of_length [] (y ∷ ys) d w le = let no : ⊥ = omega arith in absurd no
  Within-of_length (x ∷ xs) ys d w le =
      let here : contains x ys ≡ true = w x (ground (arith, e.beq_iff x x)) in
      let (back, rest) =
        Within-of_length xs (remove x ys) d.1
          (λ a h. contains-remove x a ys (apart x a xs d.0 h) (w a (ground arith)))
          (omega (arith, le, length-remove x ys here)) in
      (
        λ a h. elim (Bool-cases (x == a)) [
          | inl same ↦ rw same
          | inr other ↦ rw other (back a (contains-remove x a ys other h))
        ],
        within_remove x ys here (ground (arith, back x, d.0)) rest,
      )

  -- The test that every element of `xs` is in `ys`.
  unfoldable pub within : List A → List A → Bool
  within [] ys = true
  within (x ∷ xs) ys = contains x ys && within xs ys

  pub within_iff : (xs ys : List A) → (within xs ys ≡ true) ↔ Within xs ys
  unfolding within contains
  within_iff [] ys = (λ h a k. cc, λ w. refl)
  within_iff (x ∷ xs) ys = (
    λ h a k. elim (Bool-cases (x == a)) [
      | inl same ↦ ap (λ z. contains z ys) (sym ((e.beq_iff x a).0 same)) ∙ ground arith
      | inr other ↦ (within_iff xs ys).0 (ground arith) a (rw other at k)
    ],
    λ w. ground (
      arith,
      w x (ground (arith, e.beq_iff x x)),
      (within_iff xs ys).1 (λ a k. w a (ground arith)),
    ),
  )
