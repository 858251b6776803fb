-- ===== src/Base/Sorting.antt =====
-- `sort.Strings`: ascending by code points.
use Prim.Native.Nat.{suc}
use mathlib.Core.Path.{◌≡◌, refl, ap, ◌∙◌}
use mathlib.Core.Bool.{Bool, true, false, ◌&&◌, ◌||◌}
use mathlib.Core.Logic.{inl, inr}
use mathlib.Core.List.{List, [], ◌∷◌}
use native.Mathlib.Omega.{arith}
use go_mathsearch.Base.Tests.{ltb, nat_beq, if◌then◌else◌, Bool-cases}
use go_mathsearch.Base.Text.{Text, text_beq, text_eq}
use go_mathsearch.Base.Equality.{contains, IsDistinct, ◌==◌, ==_comm}
use go_mathsearch.Base.Lists.{All, length}

-- Go's `<` on strings.
unfoldable pub text_lt : Text → Text → Bool
text_lt [] [] = false
text_lt [] (y ∷ ys) = true
text_lt (x ∷ xs) [] = false
text_lt (x ∷ xs) (y ∷ ys) = ltb x y || (nat_beq x y && text_lt xs ys)

-- Puts a text before the first larger one.
unfoldable pub insert : Text → List Text → List Text
insert x [] = x ∷ []
insert x (y ∷ ys) = if text_lt x y then x ∷ y ∷ ys else y ∷ insert x ys

-- `sort.Strings`
unfoldable pub sort : List Text → List Text
unfolding insert
sort [] = []
sort (x ∷ xs) = insert x (sort xs)

-- Strictly ascending.
abbrev pub IsAscending : List Text → Type 0
IsAscending [] = Unit
IsAscending (x ∷ xs) = All (λ y. text_lt x y ≡ true) xs × IsAscending xs

pub text_lt_trans : (a b c : Text) → text_lt a b ≡ true → text_lt b c ≡ true → text_lt a c ≡ true
unfolding text_lt
text_lt_trans [] (y ∷ b) (z ∷ c) h k = refl
text_lt_trans (x ∷ a) (y ∷ b) (z ∷ c) h k = ground (arith, text_lt_trans a b c)
text_lt_trans _ _ _ h k = cc

pub text_lt_total : (a b : Text) → text_lt a b ≡ false → text_beq a b ≡ false → text_lt b a ≡ true
unfolding text_lt text_beq
text_lt_total (x ∷ a) (y ∷ b) h k = ground (arith, text_lt_total a b)
text_lt_total _ _ h k = ground arith

text_lt_irrefl : (a : Text) → text_lt a a ≡ false
unfolding text_lt
text_lt_irrefl [] = refl
text_lt_irrefl (x ∷ a) = ground (arith, text_lt_irrefl a)

pub text_lt_asymm : (a b : Text) → text_lt a b ≡ true → text_lt b a ≡ false
text_lt_asymm a b h = ground (arith, text_lt_trans a b a, text_lt_irrefl a, h)

pub text_lt_weak : (a b c : Text) → text_lt b a ≡ false → text_lt c b ≡ false → text_lt c a ≡ false
unfolding text_lt
text_lt_weak [] b [] h k = refl
text_lt_weak [] b (z ∷ c) h k = refl
text_lt_weak (x ∷ a) (y ∷ b) (z ∷ c) h k = ground (arith, text_lt_weak a b c, h, k)
text_lt_weak _ _ _ h k = cc

All-lt_trans :
    (x y : Text) (ys : List Text)
    → text_lt x y ≡ true
    → All (λ z. text_lt y z ≡ true) ys
    → All (λ z. text_lt x z ≡ true) ys
All-lt_trans x y [] h a = tt
All-lt_trans x y (z ∷ zs) h a = (text_lt_trans x y z h a.0, All-lt_trans x y zs h a.1)

All-insert :
    (x y : Text) (ys : List Text)
    → text_lt y x ≡ true
    → All (λ z. text_lt y z ≡ true) ys
    → All (λ z. text_lt y z ≡ true) (insert x ys)
unfolding insert
All-insert x y [] h a = (h, tt)
All-insert x y (z ∷ zs) h a = elim (Bool-cases (text_lt x z)) [
  | inl lt ↦ rw lt (h, a)
  | inr ge ↦ rw ge (a.0, All-insert x y zs h a.1)
]

insert-IsAscending :
    (x : Text) (ys : List Text) → contains x ys ≡ false → IsAscending ys → IsAscending (insert x ys)
unfolding insert contains
insert-IsAscending x [] h a = (tt, tt)
insert-IsAscending x (y ∷ ys) h a = elim (Bool-cases (text_lt x y)) [
  | inl lt ↦ rw lt ((lt, All-lt_trans x y ys lt a.0), a)
  | inr ge ↦ rw ge (
    All-insert x y ys (text_lt_total x y ge (ground (arith, ==_comm x y))) a.0,
    insert-IsAscending x ys (ground arith) a.1,
  )
]

contains-insert :
    (a x : Text) (ys : List Text) → contains a (insert x ys) ≡ (x == a || contains a ys)
unfolding contains insert
contains-insert a x [] = refl
contains-insert a x (y ∷ ys) = ground (arith, contains-insert a x ys)

-- Sorting keeps the elements.
pub contains-sort : (a : Text) (xs : List Text) → contains a (sort xs) ≡ contains a xs
unfolding sort contains
contains-sort a [] = refl
contains-sort a (x ∷ xs) = ground (arith, contains-insert a x (sort xs), contains-sort a xs)

-- A list without repetitions is sorted strictly.
pub sort-IsAscending : (xs : List Text) → IsDistinct xs → IsAscending (sort xs)
unfolding sort
sort-IsAscending [] d = tt
sort-IsAscending (x ∷ xs) d =
    insert-IsAscending x (sort xs) (contains-sort x xs ∙ d.0) (sort-IsAscending xs d.1)

-- `sort.SliceStable` with a strict order, and an `ORDER BY`.
unfoldable pub insert_by {ℓ} : {A : Type ℓ} → (A → A → Bool) → A → List A → List A
insert_by lt x [] = x ∷ []
insert_by lt x (y ∷ ys) = let rest = insert_by lt x ys in if lt y x then y ∷ rest else x ∷ y ∷ ys

unfoldable pub sort_by {ℓ} : {A : Type ℓ} → (A → A → Bool) → List A → List A
unfolding insert_by
sort_by lt [] = []
sort_by lt (x ∷ xs) = insert_by lt x (sort_by lt xs)

-- A sort keeps the length, and what holds of every element.
length-insert_by {ℓ} :
    {A : Type ℓ} (lt : A → A → Bool) (x : A) (xs : List A)
    → length (insert_by lt x xs) ≡ suc (length xs)
unfolding insert_by
length-insert_by lt x [] = refl
length-insert_by lt x (y ∷ ys) = ground (arith, length-insert_by lt x ys)

pub length-sort_by {ℓ} :
    {A : Type ℓ} (lt : A → A → Bool) (xs : List A) → length (sort_by lt xs) ≡ length xs
unfolding sort_by
length-sort_by lt [] = refl
length-sort_by lt (x ∷ xs) = length-insert_by lt x (sort_by lt xs) ∙ ap suc (length-sort_by lt xs)

pub insert_by-All {ℓ κ} :
    {A : Type ℓ} (lt : A → A → Bool) (P : A → Type κ) (x : A) (xs : List A)
    → P x
    → All P xs
    → All P (insert_by lt x xs)
unfolding insert_by
insert_by-All lt P x [] p a = (p, tt)
insert_by-All lt P x (y ∷ ys) p a = elim (Bool-cases (lt y x)) [
  | inl less ↦ rw less (a.0, insert_by-All lt P x ys p a.1)
  | inr other ↦ rw other (p, a)
]

pub sort_by-All {ℓ κ} :
    {A : Type ℓ} (lt : A → A → Bool) (P : A → Type κ) (xs : List A)
    → All P xs
    → All P (sort_by lt xs)
unfolding sort_by
sort_by-All lt P [] a = tt
sort_by-All lt P (x ∷ xs) a = insert_by-All lt P x (sort_by lt xs) a.0 (sort_by-All lt P xs a.1)
