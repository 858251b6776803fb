-- ===== src/Feature/Facets.antt =====
-- `opFacet`, `Facets` and `FacetsFrom` of feature/feature.go.
pub mod Table
pub mod Members
use go_mathsearch.Base.{
  ℕ, Bool, true, false, ◌&&◌, ◌||◌, not, Option, none, some, List, [], ◌∷◌, ◌++◌, ◌==◌, nat_eq, ltb,
  leb, if◌then◌else◌, add_all,
}
use go_mathsearch.Base.Int.{ℤ, pos, negsuc, is_negative}
use go_mathsearch.Base.Sorting.{sort}
use go_mathsearch.Base.Text.{Text, codes, text_eq, text_beq, lookup}
use go_mathsearch.Feature.Node.{Node, Kids, node, nil, cons, op, kids, leaf, count}
use go_mathsearch.Feature.Reader.{Result, ok, parse}
use go_mathsearch.Feature.Rational.{Rational, parse_rat}
use go_mathsearch.Feature.Facets.Table.{op_facet}

-- The constants among the leaves.
unfoldable pub leaf_facets : Text → List Text
leaf_facets l =
    if l == codes "$Pi"
    then codes "has-pi" ∷ []
    else if l == codes "$E"
    then codes "has-e" ∷ []
    else if l == codes "$I"
    then codes "imaginary-unit" ∷ []
    else if l == codes "$EulerGamma"
    then codes "euler-gamma" ∷ []
    else if l == codes "$Infinity"
    then codes "infinite-limit" ∷ []
    else []

-- The tag of the table, if the operator has one.
unfoldable pub table_facets : Text → List Text
table_facets o = elim (op_facet o) [ none ↦ [] | some tag ↦ tag ∷ [] ]

-- `case "Integrate"`
unfoldable pub integral_facets : Kids → List Text
integral_facets ks =
    codes "integral"
    ∷ (if leb 3 (count ks) then codes "definite-integral" else codes "indefinite-integral")
    ∷ []

abbrev pub is_first_derivative : Kids → Bool
is_first_derivative nil = false
is_first_derivative (cons k ks) = op k == codes "Derivative"

abbrev pub is_first_construct : Kids → Bool
is_first_construct nil = false
is_first_construct (cons k ks) = op k == codes "Construct" && is_first_derivative (kids k)

-- `case "Construct"`: two tests that set the same tag.
unfoldable pub construct_facets : Kids → List Text
construct_facets ks =
    (if is_first_derivative ks then codes "derivative" ∷ [] else [])
    ++ (if is_first_construct ks then codes "derivative" ∷ [] else [])

-- `num == 1 || num == -1`
abbrev pub is_unit : ℤ → Bool
is_unit (pos n) = n == 1
is_unit (negsuc n) = n == 0

-- `den == 2` and `den > 1`
abbrev pub is_two : ℤ → Bool
is_two (pos n) = n == 2
is_two (negsuc n) = false

abbrev pub exceeds_one : ℤ → Bool
exceeds_one (pos n) = ltb 1 n
exceeds_one (negsuc n) = false

unfoldable pub exponent_facets : Rational → List Text
exponent_facets q =
    (if is_negative q.num then codes "fraction" ∷ [] else [])
    ++ (if is_two q.den && is_unit q.num
        then codes "square-root" ∷ []
        else if exceeds_one q.den
        then codes "nth-root" ∷ []
        else [])

-- `case "Power"`
unfoldable pub power_facets : Kids → List Text
unfolding exponent_facets
power_facets (cons base (cons e nil)) =
    if op e == []
    then (elim (parse_rat (leaf e)) [ none ↦ [] | some q ↦ exponent_facets q ])
    else []
power_facets _ = []

-- The `switch` on the operator.
unfoldable pub switch_facets : Text → Kids → List Text
unfolding integral_facets construct_facets power_facets
switch_facets o ks =
    if o == codes "Integrate"
    then integral_facets ks
    else if o == codes "Construct"
    then construct_facets ks
    else if o == codes "Power"
    then power_facets ks
    else []

-- The closure `walk` of `Facets`, with the keys of `set` as its state.
unfoldable mutual
  pub facet_walk : List Text → Node → List Text
  facet_walk set (node o ks l raw) =
      let inner =
        facet_walk_kids (add_all (add_all set (table_facets o)) (switch_facets o ks)) ks in
      if o == [] then add_all set (leaf_facets l) else inner

  pub facet_walk_kids : List Text → Kids → List Text
  facet_walk_kids set nil = set
  facet_walk_kids set (cons k ks) = facet_walk_kids (facet_walk set k) ks

-- The order in which the map is ranged over is lost in the sorting.
unfoldable pub facets : Node → List Text
unfolding facet_walk
facets root = sort (facet_walk [] root)

-- A parse failure yields no facets.
unfoldable pub facets_from : Text → List Text
facets_from canonical = elim (parse canonical) [ ok n ↦ facets n | _ ↦ [] ]
