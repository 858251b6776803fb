-- ===== src/Tests/Searches.antt =====
-- The queries of store/store.go and its merging of hits, on small databases.
use go_mathsearch.Base.{
  true, ◌↔◌, ℕ, min, add, add_all, nat_eq, ◌≡◌, refl, List, [], ◌∷◌, if◌then◌else◌, contains, map,
  length, select, All, IsDistinct,
}
use go_mathsearch.Base.Text.{Text, codes, text_eq, text_beq}
use go_mathsearch.Store.{Formula}
use go_mathsearch.Store.Collapse.{collapse}
use go_mathsearch.Store.Collapse.Index.{signature_of, places, firsts}
use go_mathsearch.Store.Collapse.Loop.{collapse-firsts}
use go_mathsearch.Store.Collapse.Groups.{collapse-places}
use go_mathsearch.Store.Database.{Db}
use go_mathsearch.Store.Writes.{state, upsert}
use go_mathsearch.Store.Writes.Consistent.{IsConsistent, upsert-IsConsistent}
use go_mathsearch.Store.Search.{id_filter, fuzzy, exact}
use go_mathsearch.Store.Search.Filter.{carries, length-id_filter, id_filter-repeated}
use go_mathsearch.Store.Search.Hits.{exact-signatures, row_signature}
use go_mathsearch.Store.Search.Ranking.{IsRanked, fuzzy-IsRanked}
use go_mathsearch.Store.Duplicates.{duplicates, shared_signatures, entries_of}
use go_mathsearch.Store.Duplicates.Entries.{HasTwoEntries}
use go_mathsearch.Store.Duplicates.Shared.{IsGroup, signatures_of, IsDescending, duplicates_lem}
use go_mathsearch.Tests.Data.{formula, hits, words_a, engine, engine-IsFresh, engine-IsScan, empty}

collapse-firsts_example : collapse hits ≡ firsts [] hits
collapse-firsts_example = collapse-firsts hits

collapse-places_example : All (λ h. h.occurrences ≡ places (signature_of h) hits) (collapse hits)
collapse-places_example = collapse-places hits

abbrev sine : Formula
sine = record (formula (codes "a") (codes "lhs") (codes "s")) { canonical = codes "Sin[v0]" }

abbrev cosine : Formula
cosine = record (formula (codes "a") (codes "rhs") (codes "c")) { canonical = codes "Cos[v0]" }

abbrev one : Db (List ℕ)
one = state (upsert engine sine [] empty)

abbrev two : Db (List ℕ)
two = state (upsert engine cosine [] one)

empty_tables : IsConsistent empty
unfolding contains
empty_tables = record {
  ids_distinct = tt;
  keys_distinct = tt;
  facets_right = tt;
  facets_owned = λ id fc h. cc;
}

two-IsConsistent : IsConsistent two
two-IsConsistent =
    upsert-IsConsistent engine cosine [] one engine-IsFresh
      (upsert-IsConsistent engine sine [] empty engine-IsFresh empty_tables)

trig : IsDistinct (codes "trigonometric" ∷ [])
unfolding contains
trig = (refl, tt)

length-id_filter_example :
    length (id_filter (codes "trigonometric" ∷ []) two)
    ≡ length (select (carries (codes "trigonometric" ∷ [])) two.rows)
length-id_filter_example = length-id_filter (codes "trigonometric" ∷ []) two trig two-IsConsistent

twice : ¬ IsDistinct (codes "has-pi" ∷ codes "has-pi" ∷ [])
unfolding contains text_beq
twice d = cc (d.0)

id_filter-repeated_example : id_filter (codes "has-pi" ∷ codes "has-pi" ∷ []) two ≡ []
id_filter-repeated_example = id_filter-repeated (codes "has-pi" ∷ codes "has-pi" ∷ []) two twice

-- A renderer of identities.
abbrev pair_up : Text → Text → Text
pair_up lhs rhs = lhs

exact-signatures_example :
    map signature_of (exact engine pair_up (codes "s") two)
    ≡ (if contains (codes "s") (map row_signature two.rows) then codes "s" ∷ [] else [])
exact-signatures_example = exact-signatures engine pair_up (codes "s") two engine-IsScan

fuzzy-IsRanked_example : IsRanked (fuzzy engine pair_up words_a 3 10 two)
fuzzy-IsRanked_example = fuzzy-IsRanked engine pair_up words_a 3 10 two

-- Two entries with one signature.
abbrev pair_of_rows : Db (List ℕ)
pair_of_rows = record empty {
  rows =
      record { id = 1; formula = formula (codes "a") (codes "lhs") (codes "s") }
      ∷ record { id = 2; formula = formula (codes "b") (codes "rhs") (codes "s") }
      ∷ [];
}

one_group : (duplicates engine 5 pair_of_rows).1 ≡ 1
unfolding duplicates shared_signatures entries_of select add_all add contains text_beq
one_group = refl

duplicates_lem_example :
    All (IsGroup pair_of_rows.rows) (duplicates engine 5 pair_of_rows).0
    × IsDistinct (signatures_of (duplicates engine 5 pair_of_rows).0)
    × IsDescending pair_of_rows.rows (signatures_of (duplicates engine 5 pair_of_rows).0)
    × (length (duplicates engine 5 pair_of_rows).0 ≡ min 5 (duplicates engine 5 pair_of_rows).1)
    × ((duplicates engine 5 pair_of_rows).1 ≡ length (shared_signatures pair_of_rows.rows))
    × IsDistinct (shared_signatures pair_of_rows.rows)
    × ((contains (codes "s") (shared_signatures pair_of_rows.rows) ≡ true)
        ↔ HasTwoEntries pair_of_rows.rows (codes "s"))
duplicates_lem_example = duplicates_lem engine 5 pair_of_rows (codes "s")
