-- ===== src/Feature/Similarity.antt =====
-- `Document`, `MatchQuery`, `Jaccard` and `toSet` of feature/feature.go.
pub mod Words
pub mod Query
pub mod Overlap
use go_mathsearch.Base.{
  ℕ, ◌+◌, ◌-◌, Bool, true, false, ◌&&◌, List, [], ◌∷◌, ◌++◌, ◌==◌, nat_eq, if◌then◌else◌, contains,
  add, add_all, length, select, map,
}
use go_mathsearch.Base.Text.{Text, codes, text_eq}
use go_mathsearch.Feature.Hash.{hash_token}

-- The loop of `Document`; the flag is `i > 0`.
unfoldable pub write_document : Text → Bool → List Text → Text
write_document b later [] = b
write_document b later (t ∷ ts) =
    write_document ((if later then b ++ b' ' ∷ [] else b) ++ hash_token t) true ts

unfoldable pub document : List Text → Text
unfolding write_document
document ts = write_document [] false ts

-- The loop of `MatchQuery`: the set `seen` and the slice `parts`.
unfoldable pub collect : List Text → List Text → List Text → List Text
collect seen parts [] = parts
collect seen parts (t ∷ ts) =
    let h = hash_token t in
    let old = contains h seen in
    collect (if old then seen else add h seen) (if old then parts else parts ++ h ∷ []) ts

-- `strings.Join`
unfoldable pub join : Text → List Text → Text
join sep [] = []
join sep (s ∷ []) = s
join sep (s ∷ t ∷ ts) = s ++ (sep ++ join sep (t ∷ ts))

unfoldable pub match_query : List Text → Text
unfolding collect
match_query ts = join (codes " OR ") (collect [] [] ts)

-- `toSet`: the keys of the map.
unfoldable pub to_set : List Text → List Text
to_set = add_all []

-- A float64 quotient of two counts, kept as a fraction.
pub record Score : Type 0 where
  pub num : ℕ
  pub den : ℕ

-- The number of keys of one set in the other.
unfoldable pub shared : List Text → List Text → ℕ
shared sa sb = length (select (λ t. contains t sb) sa)

unfoldable pub jaccard : List Text → List Text → Score
unfolding to_set shared
jaccard a b =
    let sa = to_set a in
    let sb = to_set b in
    let inter = shared sa sb in
    let union = length sa + length sb - inter in
    if length sa == 0 && length sb == 0
    then record { num = 1; den = 1 }
    else if union == 0
    then record { num = 0; den = 1 }
    else record { num = inter; den = union }
