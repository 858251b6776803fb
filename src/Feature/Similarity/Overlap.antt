-- ===== src/Feature/Similarity/Overlap.antt =====
-- `Jaccard` of feature/feature.go is a similarity of sets.
use go_mathsearch.Base.{
  suc, ◌≤◌, ◌<◌, ◌≡◌, refl, sym, ap, ◌∙◌, ◌↔◌, inl, inr, Bool, true, List, [], ◌∷◌, arith, ◌==◌,
  nat_eq, Bool-cases, contains, contains-add_all, add_all-IsDistinct, IsDistinct, length, select,
  Within, length-eq_of_Within, contains-select, select-IsDistinct, length-select_le,
}
use go_mathsearch.Base.Text.{Text, text_eq}
use go_mathsearch.Feature.Similarity.{to_set, shared, jaccard}

-- The same tokens, however often and in whatever order.
abbrev pub SameSet : List Text → List Text → Type 0
SameSet a b = (t : Text) → contains t a ≡ contains t b

contains-to_set : (t : Text) (a : List Text) → contains t (to_set a) ≡ contains t a
unfolding to_set contains
contains-to_set t a = contains-add_all t [] a

to_set-IsDistinct : (a : List Text) → IsDistinct (to_set a)
unfolding to_set
to_set-IsDistinct a = add_all-IsDistinct [] a tt

-- Both counts are the size of the intersection.
shared_comm : (sa sb : List Text) → IsDistinct sa → IsDistinct sb → shared sa sb ≡ shared sb sa
unfolding shared
shared_comm sa sb da db =
    length-eq_of_Within _ _ (select-IsDistinct _ sa da) (select-IsDistinct _ sb db) (swap sa sb)
      (swap sb sa)
  where
    swap : (x y : List Text) → Within (select (λ t. contains t y) x) (select (λ t. contains t x) y)
    swap x y t h =
        contains-select (λ u. contains u x) t y
        ∙ ground (arith, contains-select (λ u. contains u y) t x)

shared-le : (sa sb : List Text) → shared sa sb ≤ length sa
unfolding shared
shared-le sa sb = length-select_le (λ t. contains t sb) sa

passes_of_length :
    (p : Text → Bool) (xs : List Text)
    → length (select p xs) ≡ length xs
    → (t : Text) → contains t xs ≡ true
    → p t ≡ true
unfolding select contains
passes_of_length p [] e t h = cc
passes_of_length p (x ∷ xs) e t h = elim (Bool-cases (p x)) [
  | inr fails ↦ absurd (omega (arith, rw fails at e, length-select_le p xs))
  | inl holds ↦
      let rest : length (select p xs) ≡ length xs = omega (arith, rw holds at e) in
      elim (Bool-cases (x == t)) [
        | inl same ↦ rw (← (text_eq.beq_iff x t).0 same) holds
        | inr other ↦ passes_of_length p xs rest t (rw other at h)
      ]
]

select_of_Within :
    (xs ys : List Text) → Within xs ys → length (select (λ t. contains t ys) xs) ≡ length xs
unfolding select contains
select_of_Within [] ys w = refl
select_of_Within (x ∷ xs) ys w =
    let here : contains x ys ≡ true = w x (ground (arith, text_eq.beq_iff x x)) in
    rw here (ap suc (select_of_Within xs ys (λ t h. w t (later t h))))
  where
    later : (t : Text) → contains t xs ≡ true → contains t (x ∷ xs) ≡ true
    later t h = ground arith

shared-full : (sa sb : List Text) → (shared sa sb ≡ length sa) ↔ Within sa sb
unfolding shared
shared-full sa sb = (passes_of_length (λ t. contains t sb) sa, select_of_Within sa sb)

-- Similarity is symmetric.
pub jaccard_comm : (a b : List Text) → jaccard a b ≡ jaccard b a
unfolding jaccard
jaccard_comm a b =
    ground (arith, shared_comm (to_set a) (to_set b) (to_set-IsDistinct a) (to_set-IsDistinct b))

-- Similarity is a fraction between 0 and 1 with a positive denominator.
pub jaccard_bounds :
    (a b : List Text) → (jaccard a b).num ≤ (jaccard a b).den × (0 < (jaccard a b).den)
unfolding jaccard
jaccard_bounds a b =
    let sa = to_set a in
    let sb = to_set b in
    ground (
      arith,
      shared-le sa sb,
      shared-le sb sa,
      shared_comm sa sb (to_set-IsDistinct a) (to_set-IsDistinct b),
    )

Within-SameSet :
    (a b : List Text) → Within (to_set a) (to_set b) → Within (to_set b) (to_set a) → SameSet a b
Within-SameSet a b v w t = ground (arith, v t, w t, contains-to_set t a, contains-to_set t b)

SameSet-Within : (a b : List Text) → SameSet a b → Within (to_set a) (to_set b)
SameSet-Within a b h t k = contains-to_set t b ∙ sym (h t) ∙ sym (contains-to_set t a) ∙ k

full_of_one :
    (a b : List Text)
    → (jaccard a b).num ≡ (jaccard a b).den
    → (shared (to_set a) (to_set b) ≡ length (to_set a))
      × (shared (to_set a) (to_set b) ≡ length (to_set b))
unfolding jaccard
full_of_one a b e =
    let sa = to_set a in
    let sb = to_set b in
    ground (
      arith,
      shared-le sa sb,
      shared-le sb sa,
      shared_comm sa sb (to_set-IsDistinct a) (to_set-IsDistinct b),
    )

one_of_full :
    (a b : List Text)
    → shared (to_set a) (to_set b) ≡ length (to_set a)
    → shared (to_set a) (to_set b) ≡ length (to_set b)
    → (jaccard a b).num ≡ (jaccard a b).den
unfolding jaccard
one_of_full a b h k = ground arith

-- Similarity is 1 exactly for the same set of tokens.
pub jaccard-one_iff : (a b : List Text) → ((jaccard a b).num ≡ (jaccard a b).den) ↔ SameSet a b
jaccard-one_iff a b =
    let sa = to_set a in
    let sb = to_set b in
    let turned = shared_comm sa sb (to_set-IsDistinct a) (to_set-IsDistinct b) in
    (
      λ e.
          let (h, k) = full_of_one a b e in
          Within-SameSet a b ((shared-full sa sb).0 h) ((shared-full sb sa).0 (sym turned ∙ k)),
      λ h.
          one_of_full a b ((shared-full sa sb).1 (SameSet-Within a b h))
            (turned ∙ (shared-full sb sa).1 (SameSet-Within b a (λ t. sym (h t)))),
    )

length_congr : (a a' : List Text) → SameSet a a' → length (to_set a) ≡ length (to_set a')
length_congr a a' h =
    length-eq_of_Within _ _ (to_set-IsDistinct a) (to_set-IsDistinct a') (SameSet-Within a a' h)
      (SameSet-Within a' a (λ t. sym (h t)))

shared-Within :
    (a a' b b' : List Text)
    → SameSet a a'
    → SameSet b b'
    → Within
        (select (λ t. contains t (to_set b)) (to_set a))
        (select (λ t. contains t (to_set b')) (to_set a'))
shared-Within a a' b b' h k t m = ground (
  arith,
  contains-select (λ u. contains u (to_set b)) t (to_set a),
  contains-select (λ u. contains u (to_set b')) t (to_set a'),
  SameSet-Within a a' h t,
  SameSet-Within b b' k t,
)

shared_congr :
    (a a' b b' : List Text)
    → SameSet a a'
    → SameSet b b'
    → shared (to_set a) (to_set b) ≡ shared (to_set a') (to_set b')
unfolding shared
shared_congr a a' b b' h k =
    length-eq_of_Within _ _ (select-IsDistinct _ _ (to_set-IsDistinct a))
      (select-IsDistinct _ _ (to_set-IsDistinct a')) (shared-Within a a' b b' h k)
      (shared-Within a' a b' b (λ t. sym (h t)) (λ t. sym (k t)))

-- Similarity depends on the sets of tokens alone: not on their order, nor on how often they occur.
pub jaccard_congr :
    (a a' b b' : List Text) → SameSet a a' → SameSet b b' → jaccard a b ≡ jaccard a' b'
unfolding jaccard
jaccard_congr a a' b b' h k =
    rw (length_congr a a' h) (rw (length_congr b b' k) (rw (shared_congr a a' b b' h k)))
