-- ===== src/Store/Duplicates.antt =====
-- `Duplicates` and `occurrences` of store/store.go. Signatures with as many entries come in the order in
-- which the query meets them, and a limit that is negative is left out.
pub mod Order
pub mod Entries
pub mod Shared
use go_mathsearch.Base.{ℕ, Bool, List, [], ◌∷◌, map, ◌==◌, add_all, select, length, take, ltb}
use go_mathsearch.Base.Sorting.{sort_by}
use go_mathsearch.Base.Text.{Text, text_eq}
use go_mathsearch.Store.{Occurrence, occurrence_of}
use go_mathsearch.Store.Database.{Row, Db, Engine}
use go_mathsearch.Store.Search.{key_lt}

pub record DuplicateGroup : Type 0 where
  pub signature : Text
  pub occurrences : List Occurrence

-- `WHERE signature = ?`
abbrev pub with_signature : Text → List Row → List Row
with_signature sig rows = select (λ (r : Row). r.formula.signature == sig) rows

-- `COUNT(DISTINCT entry_id)` of a signature.
unfoldable pub entries_of : Text → List Row → ℕ
entries_of sig rows =
    length (add_all [] (map (λ (r : Row). r.formula.entry_id) (with_signature sig rows)))

-- `HAVING COUNT(DISTINCT entry_id) > 1`
abbrev pub is_shared : List Row → Text → Bool
is_shared rows sig = ltb 1 (entries_of sig rows)

unfoldable pub shared_signatures : List Row → List Text
unfolding entries_of
shared_signatures rows =
    select (is_shared rows) (add_all [] (map (λ (r : Row). r.formula.signature) rows))

-- `occurrences`
unfoldable pub occurrences : Text → List Row → List Occurrence
occurrences sig rows =
    map (λ (r : Row). occurrence_of r.formula) (sort_by key_lt (with_signature sig rows))

-- `ORDER BY COUNT(DISTINCT entry_id) DESC`
abbrev pub more_entries : List Row → Text → Text → Bool
more_entries rows s t = ltb (entries_of t rows) (entries_of s rows)

-- `Duplicates`: the groups, and the number of signatures that are shared.
unfoldable pub duplicates : (E : Engine) → ℕ → Db E.Index → List DuplicateGroup × ℕ
unfolding shared_signatures occurrences
duplicates E limit db =
    let rows = E.scan db.rows in
    let shared = shared_signatures rows in
    (
      map (λ sig. record { signature = sig; occurrences = occurrences sig rows })
          (take limit (sort_by (more_entries rows) shared)),
      length shared,
    )
