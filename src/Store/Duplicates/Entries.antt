-- ===== src/Store/Duplicates/Entries.antt =====
-- The entries that have a signature, as the queries of `Duplicates` in store/store.go count them.
use go_mathsearch.Base.{
  true, false, List, [], ◌∷◌, map, select, length, ltb, ◌==◌, ==_iff, ==_comm, ==_refl, nat_eq,
  pair_eq, contains, add_all, contains-add_all, add_all-IsDistinct, IsDistinct, ◌≡◌, ◌↔◌, refl, sym,
  ◌∙◌, arith,
}
use go_mathsearch.Base.Text.{Text, text_eq}
use go_mathsearch.Store.Database.{Row}
use go_mathsearch.Store.Duplicates.{with_signature, entries_of, is_shared}

-- Two different elements of a list.
abbrev HasTwo : List Text → Type 0
HasTwo xs = (a b : Text) × ((a == b) ≡ false) × (contains a xs ≡ true) × (contains b xs ≡ true)

distinct-HasTwo : (xs : List Text) → IsDistinct xs → ltb 1 (length xs) ≡ true → HasTwo xs
unfolding contains
distinct-HasTwo [] d h = cc
distinct-HasTwo (x ∷ []) d h = cc
distinct-HasTwo (x ∷ y ∷ xs) d h =
    (x, y, ground (arith, d.0, ==_comm x y), ground (arith, ==_refl x), ground (arith, ==_refl y))

HasTwo-length : (xs : List Text) → HasTwo xs → ltb 1 (length xs) ≡ true
unfolding contains
HasTwo-length [] (a, b, differ, here, there) = cc
HasTwo-length (x ∷ []) (a, b, differ, here, there) =
    let p : x ≡ a = (==_iff x a).0 (ground (arith, here)) in
    let q : x ≡ b = (==_iff x b).0 (ground (arith, there)) in
    let same : (a == b) ≡ true = (==_iff a b).1 (sym p ∙ q) in ground (arith, same, differ)
HasTwo-length (x ∷ y ∷ xs) two = ground arith

-- The entry and the signature of each row.
abbrev pub keyed : List Row → List (Text × Text)
keyed = map (λ (r : Row). (r.formula.entry_id, r.formula.signature))

contains-keyed :
    (a sig : Text) (rows : List Row)
    → contains a (map (λ (r : Row). r.formula.entry_id) (with_signature sig rows))
      ≡ contains (a, sig) (keyed rows)
unfolding contains select
contains-keyed a sig [] = refl
contains-keyed a sig (r ∷ rows) = ground (arith, contains-keyed a sig rows)

-- Two different entries have the signature.
abbrev pub HasTwoEntries : List Row → Text → Type 0
HasTwoEntries rows sig =
    (a b : Text) × ((a == b) ≡ false)
    × (contains (a, sig) (keyed rows) ≡ true)
    × (contains (b, sig) (keyed rows) ≡ true)

contains-entries :
    (a sig : Text) (rows : List Row)
    → contains a (add_all [] (map (λ (r : Row). r.formula.entry_id) (with_signature sig rows)))
      ≡ contains (a, sig) (keyed rows)
unfolding contains
contains-entries a sig rows =
    contains-add_all a [] (map (λ (r : Row). r.formula.entry_id) (with_signature sig rows))
    ∙ contains-keyed a sig rows

-- More than one distinct entry is counted exactly if two different ones have the signature.
pub is_shared_iff :
    (rows : List Row) (sig : Text) → (is_shared rows sig ≡ true) ↔ HasTwoEntries rows sig
unfolding entries_of
is_shared_iff rows sig =
    let names : List Text =
      add_all [] (map (λ (r : Row). r.formula.entry_id) (with_signature sig rows)) in
    (
      (λ h.
          let (a, b, differ, p, q) = distinct-HasTwo names (add_all-IsDistinct [] _ tt) h in
          (
            a,
            b,
            differ,
            sym (contains-entries a sig rows) ∙ p,
            sym (contains-entries b sig rows) ∙ q,
          )),
      (λ two.
          let (a, b, differ, p, q) = two in
          HasTwo-length names
            (a, b, differ, contains-entries a sig rows ∙ p, contains-entries b sig rows ∙ q)),
    )
