-- ===== src/Store/Duplicates/Shared.antt =====
-- The groups that `Duplicates` of store/store.go reports.
use go_mathsearch.Base.{
  ℕ, zero, suc, min, Bool, true, false, List, [], ◌∷◌, map, contains, contains-select,
  contains-add_all, add_all, add_all-IsDistinct, select-IsDistinct, IsDistinct, select, length,
  length-take, take, Bool-cases, All, ◌≡◌, ◌↔◌, refl, sym, ap, subst, ◌≤◌, ◌∙◌, inl, inr, arith,
}
use go_mathsearch.Base.Sorting.{sort_by, length-sort_by, sort_by-All}
use go_mathsearch.Base.Orders.{
  IsOrdered, IsWeak, sort_by-IsPerm, sort_by-IsOrdered, sort_by-IsDistinct,
}
use mathlib.Core.List.{Perm}
use go_mathsearch.Store.{Occurrence, occurrence_of}
use go_mathsearch.Store.Duplicates.Order.{key_lt-IsWeak}
use go_mathsearch.Store.Duplicates.Entries.{HasTwoEntries, is_shared_iff}
use go_mathsearch.Base.Text.{Text, text_eq}
use go_mathsearch.Store.Database.{Row, Db, Engine}
use go_mathsearch.Store.Search.{key_lt}
use go_mathsearch.Store.Duplicates.{
  DuplicateGroup, with_signature, entries_of, is_shared, shared_signatures, occurrences,
  more_entries, duplicates,
}

length-map {ℓ κ} :
    {A : Type ℓ} {B : Type κ} (f : A → B) (xs : List A) → length (map f xs) ≡ length xs
length-map f [] = refl
length-map f (x ∷ xs) = ap suc (length-map f xs)

take-All {ℓ κ} : {A : Type ℓ} (P : A → Type κ) (n : ℕ) (xs : List A) → All P xs → All P (take n xs)
take-All P zero xs a = tt
take-All P (suc n) [] a = tt
take-All P (suc n) (x ∷ xs) a = (a.0, take-All P n xs a.1)

map-All {ℓ κ μ} :
    {A : Type ℓ} {B : Type κ} (P : B → Type μ) (f : A → B) (xs : List A)
    → All (λ a. P (f a)) xs
    → All P (map f xs)
map-All P f [] a = tt
map-All P f (x ∷ xs) a = (a.0, map-All P f xs a.1)

select-All {ℓ} : {A : Type ℓ} (p : A → Bool) (xs : List A) → All (λ a. p a ≡ true) (select p xs)
unfolding select
select-All p [] = tt
select-All p (x ∷ xs) = elim (Bool-cases (p x)) [
  | inl keep ↦ rw keep (keep, select-All p xs)
  | inr drop ↦ rw drop (select-All p xs)
]

-- A signature that no row has is not shared.
with_signature-nil :
    (sig : Text) (rows : List Row)
    → contains sig (map (λ (r : Row). r.formula.signature) rows) ≡ false
    → with_signature sig rows ≡ []
unfolding select contains
with_signature-nil sig [] h = refl
with_signature-nil sig (r ∷ rows) h = ground (arith, with_signature-nil sig rows)

entries_of-zero :
    (sig : Text) (rows : List Row)
    → contains sig (map (λ (r : Row). r.formula.signature) rows) ≡ false
    → entries_of sig rows ≡ 0
unfolding entries_of add_all
entries_of-zero sig rows h =
    ap (λ (rs : List Row). length (add_all [] (map (λ (r : Row). r.formula.entry_id) rs)))
      (with_signature-nil sig rows h)

contains-shared_signatures :
    (sig : Text) (rows : List Row) → contains sig (shared_signatures rows) ≡ is_shared rows sig
unfolding shared_signatures contains
contains-shared_signatures sig rows =
    let all =
      contains-select (is_shared rows) sig
        (add_all [] (map (λ (r : Row). r.formula.signature) rows)) in
    let old = contains-add_all sig [] (map (λ (r : Row). r.formula.signature) rows) in
    elim (Bool-cases (contains sig (map (λ (r : Row). r.formula.signature) rows))) [
      | inl there ↦ ground (arith, all, old, there)
      | inr gone ↦ ground (arith, all, old, gone, entries_of-zero sig rows gone)
    ]

contains-shared_iff :
    (sig : Text) (rows : List Row)
    → (contains sig (shared_signatures rows) ≡ true) ↔ HasTwoEntries rows sig
contains-shared_iff sig rows =
    let same = contains-shared_signatures sig rows in
    let two = is_shared_iff rows sig in ((λ h. two.0 (sym same ∙ h)), (λ h. same ∙ two.1 h))

-- The fields of a row that an occurrence has.
pub record IsOccurrence (r : Row) (o : Occurrence) : Type 0 where
  pub same_entry : o.entry_id ≡ r.formula.entry_id
  pub same_side : o.side ≡ r.formula.side
  pub same_source : o.source ≡ r.formula.source
  pub same_label : o.label ≡ r.formula.label

-- An occurrence for each row, in the same order.
abbrev pub AreOccurrences : List Row → List Occurrence → Type 0
AreOccurrences [] [] = Unit
AreOccurrences (r ∷ rs) (o ∷ os) = IsOccurrence r o × AreOccurrences rs os
AreOccurrences _ _ = ⊥

-- A group reports all the rows of a signature that more than one entry has, ordered by entry and side.
abbrev pub IsGroup : List Row → DuplicateGroup → Type 0
IsGroup rows g =
    HasTwoEntries rows g.signature
    × (rs : List Row) × Perm rs (with_signature g.signature rows)
    × IsOrdered key_lt rs
    × AreOccurrences rs g.occurrences

abbrev pub signatures_of : List DuplicateGroup → List Text
signatures_of = map (λ (g : DuplicateGroup). g.signature)

map-occurrence_of :
    (rs : List Row) → AreOccurrences rs (map (λ (r : Row). occurrence_of r.formula) rs)
map-occurrence_of [] = tt
map-occurrence_of (r ∷ rs) = (
  record { same_entry = refl; same_side = refl; same_source = refl; same_label = refl },
  map-occurrence_of rs,
)

-- The group that `Duplicates` makes of a signature.
abbrev group_of : List Row → Text → DuplicateGroup
group_of rows sig = record { signature = sig; occurrences = occurrences sig rows }

group_of-IsGroup :
    (rows : List Row) (sig : Text) → is_shared rows sig ≡ true → IsGroup rows (group_of rows sig)
unfolding occurrences
group_of-IsGroup rows sig h = (
  (is_shared_iff rows sig).0 h,
  sort_by key_lt (with_signature sig rows),
  ∣ sort_by-IsPerm key_lt (with_signature sig rows) ∣₁,
  sort_by-IsOrdered key_lt (with_signature sig rows) key_lt-IsWeak,
  map-occurrence_of (sort_by key_lt (with_signature sig rows)),
)

groups-IsGroup :
    (rows : List Row) (sigs : List Text)
    → All (λ sig. is_shared rows sig ≡ true) sigs
    → All (λ sig. IsGroup rows (group_of rows sig)) sigs
groups-IsGroup rows [] a = tt
groups-IsGroup rows (sig ∷ sigs) a = (group_of-IsGroup rows sig a.0, groups-IsGroup rows sigs a.1)

signatures-groups :
    (rows : List Row) (sigs : List Text) → signatures_of (map (group_of rows) sigs) ≡ sigs
signatures-groups rows [] = refl
signatures-groups rows (sig ∷ sigs) = ap (◌∷◌ sig) (signatures-groups rows sigs)

more_entries-IsWeak : (rows : List Row) → IsWeak (more_entries rows)
more_entries-IsWeak rows = ((λ s t h. ground (arith, h)), (λ s t u h k. ground (arith, h, k)))

take-IsDistinct : (n : ℕ) (xs : List Text) → IsDistinct xs → IsDistinct (take n xs)
unfolding contains
take-IsDistinct zero xs d = tt
take-IsDistinct (suc n) [] d = tt
take-IsDistinct (suc n) (x ∷ xs) d = (contains-take n x xs d.0, take-IsDistinct n xs d.1)
  where
    contains-take :
        (n : ℕ) (x : Text) (xs : List Text) → contains x xs ≡ false → contains x (take n xs) ≡ false
    contains-take zero x xs h = refl
    contains-take (suc n) x [] h = refl
    contains-take (suc n) x (y ∷ ys) h = ground (arith, contains-take n x ys, h)

-- No signature has more entries than one before it.
abbrev pub IsDescending : List Row → List Text → Type 0
IsDescending rows [] = Unit
IsDescending rows (s ∷ ss) =
    All (λ t. entries_of t rows ≤ entries_of s rows) ss × IsDescending rows ss

take-IsDescending :
    (rows : List Row) (n : ℕ) (ss : List Text)
    → IsOrdered (more_entries rows) ss
    → IsDescending rows (take n ss)
take-IsDescending rows zero ss o = tt
take-IsDescending rows (suc n) [] o = tt
take-IsDescending rows (suc n) (s ∷ ss) o = (below n ss o.0, take-IsDescending rows n ss o.1)
  where
    below :
        (n : ℕ) (ts : List Text)
        → All (λ t. more_entries rows t s ≡ false) ts
        → All (λ t. entries_of t rows ≤ entries_of s rows) (take n ts)
    below zero ts a = tt
    below (suc n) [] a = tt
    below (suc n) (t ∷ ts) a = (ground (arith, a.0), below n ts a.1)

-- Every group of `Duplicates` is a signature that more than one entry has, with an occurrence for each of
-- its rows, ordered by entry and side; the groups are of distinct signatures, and none has more entries
-- than one before it; there are as many groups as the limit lets through of the total; and the total
-- counts distinct signatures, exactly those that more than one entry has, in the rows as the query returns
-- them.
pub duplicates_lem :
    (E : Engine) (limit : ℕ) (db : Db E.Index) (sig : Text)
    → All (IsGroup (E.scan db.rows)) (duplicates E limit db).0
      × IsDistinct (signatures_of (duplicates E limit db).0)
      × IsDescending (E.scan db.rows) (signatures_of (duplicates E limit db).0)
      × (length (duplicates E limit db).0 ≡ min limit (duplicates E limit db).1)
      × ((duplicates E limit db).1 ≡ length (shared_signatures (E.scan db.rows)))
      × IsDistinct (shared_signatures (E.scan db.rows))
      × ((contains sig (shared_signatures (E.scan db.rows)) ≡ true)
          ↔ HasTwoEntries (E.scan db.rows) sig)
unfolding duplicates shared_signatures
duplicates_lem E limit db sig =
    let rows = E.scan db.rows in
    let shared = shared_signatures rows in
    let sorted = sort_by (more_entries rows) shared in
    let ordered = sort_by-IsOrdered (more_entries rows) shared (more_entries-IsWeak rows) in
    let distinct = select-IsDistinct (is_shared rows) _ (add_all-IsDistinct [] _ tt) in
    let named = sym (signatures-groups rows (take limit sorted)) in
    (
      map-All (IsGroup rows) (group_of rows) (take limit sorted) (
          groups-IsGroup rows (take limit sorted) (
            take-All (λ s. is_shared rows s ≡ true) limit sorted
              (sort_by-All (more_entries rows) (λ s. is_shared rows s ≡ true) shared
                (select-All (is_shared rows) _)))),
      subst IsDistinct named
          (take-IsDistinct limit sorted (sort_by-IsDistinct (more_entries rows) shared distinct)),
      subst (IsDescending rows) named (take-IsDescending rows limit sorted ordered),
      length-map _ (take limit sorted)
          ∙ length-take limit sorted
          ∙ ap (min limit) (length-sort_by (more_entries rows) shared),
      refl,
      distinct,
      contains-shared_iff sig rows,
    )
