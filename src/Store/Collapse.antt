-- ===== src/Store/Collapse.antt =====
-- `collapse` of store/store.go: hits that share a signature become one.
pub mod Groups
pub mod Index
pub mod Loop
use go_mathsearch.Base.{
  ℕ, zero, suc, ◌+◌, ◌≡◌, Bool, true, false, List, [], ◌∷◌, ◌++◌, Option, none, some, length,
  if◌then◌else◌,
}
use go_mathsearch.Base.Text.{Text, lookup, text_eq}
use go_mathsearch.Store.{Formula, Occurrence, Hit, occurrence_of}

-- `out[i].Occurrences = append(out[i].Occurrences, occ)`
unfoldable pub append_occurrence : ℕ → Occurrence → List Hit → List Hit
append_occurrence i occ [] = []
append_occurrence zero occ (h ∷ hs) = record h { occurrences = h.occurrences ++ occ ∷ [] } ∷ hs
append_occurrence (suc i) occ (h ∷ hs) = h ∷ append_occurrence i occ hs

-- The loop: `by_id` maps a signature to its index in `out`.
unfoldable pub collapse_onto : List (Text × ℕ) → List Hit → List Hit → List Hit
collapse_onto by_id out [] = out
collapse_onto by_id out (r ∷ rs) =
    let occ = occurrence_of r.formula in
    let sig = r.formula.signature in
    let old = λ (i : ℕ). collapse_onto by_id (append_occurrence i occ out) rs in
    let new =
      collapse_onto ((sig, length out) ∷ by_id) (out ++ record r { occurrences = occ ∷ [] } ∷ [])
        rs in
    elim (lookup sig by_id) [ some i ↦ old i | none ↦ new ]

unfoldable pub collapse : List Hit → List Hit
unfolding collapse_onto append_occurrence
collapse rs = collapse_onto [] [] rs
