-- ===== src/Latexfmt/Balanced/Names.antt =====
-- The brackets in what latexfmt/names.go makes of names that have none.
use go_mathsearch.Base.{
  ℕ, zero, suc, ◌-◌, Bool, true, false, ◌&&◌, Option, none, some, List, [], ◌∷◌, ◌++◌, ◌==◌, nat_eq,
  if◌then◌else◌, length, take, ◌≡◌, refl, arith,
}
use go_mathsearch.Base.Text.{Text, codes, text_eq, lookup}
use go_mathsearch.Latexfmt.Names.{
  greek, greek_capital, has_prefix, drop, last_of, to_lower, mathrm, named_character, plain_symbol,
  inner_of, symbol, trim_left, trim_right, const_names, const_name, func_names, func_name,
  subscript_funcs, subscript_func,
}
use go_mathsearch.Latexfmt.Brackets.{
  bracket, scan, plain, IsBalanced, IsBalanced-plain, IsBalanced-if, TableBalanced,
  lookup-IsBalanced, skip,
}

-- The tests of a text and of a table.
abbrev is_nil : Option (List ℕ) → Bool
is_nil (some []) = true
is_nil _ = false

is_closed : List (Text × Text) → Bool
is_closed [] = true
is_closed (p ∷ m) = is_nil (scan [] p.1) && is_closed m

eq_of_is_nil : (o : Option (List ℕ)) → is_nil o ≡ true → o ≡ some []
eq_of_is_nil none h = cc
eq_of_is_nil (some []) h = refl
eq_of_is_nil (some (x ∷ xs)) h = cc

is_closed-TableBalanced : (m : List (Text × Text)) → is_closed m ≡ true → TableBalanced m
unfolding is_closed
is_closed-TableBalanced [] h = tt
is_closed-TableBalanced (p ∷ m) h = (
  record { closed = eq_of_is_nil (scan [] p.1) (ground arith) },
  is_closed-TableBalanced m (ground arith),
)

pub func_name-IsBalanced : (o v : Text) → func_name o ≡ some v → IsBalanced v
unfolding func_name is_closed scan bracket
func_name-IsBalanced o v =
    lookup-IsBalanced o func_names v (is_closed-TableBalanced func_names refl)

pub subscript_func-IsBalanced : (o v : Text) → subscript_func o ≡ some v → IsBalanced v
unfolding subscript_func is_closed scan bracket
subscript_func-IsBalanced o v =
    lookup-IsBalanced o subscript_funcs v (is_closed-TableBalanced subscript_funcs refl)

greek-IsBalanced : (k v : Text) → lookup k greek ≡ some v → IsBalanced v
unfolding is_closed scan bracket
greek-IsBalanced k v = lookup-IsBalanced k greek v (is_closed-TableBalanced greek refl)

greek_capital-IsBalanced : (k v : Text) → lookup k greek_capital ≡ some v → IsBalanced v
unfolding is_closed scan bracket
greek_capital-IsBalanced k v =
    lookup-IsBalanced k greek_capital v (is_closed-TableBalanced greek_capital refl)

drop-plain : (n : ℕ) (s : Text) → plain s ≡ true → plain (drop n s) ≡ true
unfolding drop plain
drop-plain zero s h = h
drop-plain (suc n) [] h = refl
drop-plain (suc n) (c ∷ s) h = drop-plain n s (ground arith)

take-plain : (n : ℕ) (s : Text) → plain s ≡ true → plain (take n s) ≡ true
unfolding plain
take-plain zero s h = refl
take-plain (suc n) [] h = refl
take-plain (suc n) (c ∷ s) h = ground (arith, take-plain n s)

trim_left-plain : (s : Text) → plain s ≡ true → plain (trim_left s) ≡ true
unfolding plain trim_left
trim_left-plain [] h = refl
trim_left-plain (c ∷ s) h = ground (arith, trim_left-plain s)

trim_right-plain : (s : Text) → plain s ≡ true → plain (trim_right s) ≡ true
unfolding plain trim_right
trim_right-plain [] h = refl
trim_right-plain (c ∷ s) h = ground (arith, trim_right-plain s)

mathrm-IsBalanced : (s : Text) → plain s ≡ true → IsBalanced (mathrm s)
unfolding scan bracket
mathrm-IsBalanced s h = record { closed = skip (IsBalanced-plain s h) _ (codes "}") }

-- A letter of the table if there is one, else something balanced.
or_else-IsBalanced :
    (o : Option Text) (t : Text)
    → ((v : Text) → o ≡ some v → IsBalanced v)
    → IsBalanced t
    → IsBalanced (elim o [ some g ↦ g | none ↦ t ])
or_else-IsBalanced none t h k = k
or_else-IsBalanced (some g) t h k = h g refl

capital-IsBalanced :
    (b : Bool) (k v : Text) → (if b then lookup k greek_capital else none) ≡ some v → IsBalanced v
capital-IsBalanced true k v h = greek_capital-IsBalanced k v h
capital-IsBalanced false k v h = cc

named_character-IsBalanced : (s : Text) → plain s ≡ true → IsBalanced (named_character s)
unfolding named_character
named_character-IsBalanced s h =
    or_else-IsBalanced _ _
      (capital-IsBalanced (has_prefix s (codes "Capital")) (to_lower (drop 7 s)))
      (or_else-IsBalanced _ _ (greek-IsBalanced (to_lower s)) (mathrm-IsBalanced s h))

plain_symbol-IsBalanced : (s : Text) → plain s ≡ true → IsBalanced (plain_symbol s)
unfolding plain_symbol
plain_symbol-IsBalanced s h =
    or_else-IsBalanced _ _ (greek-IsBalanced s)
      (IsBalanced-if _ (IsBalanced-plain s h) (mathrm-IsBalanced s h))

pub symbol-IsBalanced : (s : Text) → plain s ≡ true → IsBalanced (symbol s)
unfolding symbol scan
symbol-IsBalanced s h =
    IsBalanced-if (s == []) (record { closed = refl })
      (IsBalanced-if (has_prefix s (codes "\\[") && last_of s == b']')
        (named_character-IsBalanced (inner_of s) (drop-plain 2 _ (take-plain (length s - 1) s h)))
        (plain_symbol-IsBalanced s h))

const_names-IsBalanced : (k v : Text) → lookup k const_names ≡ some v → IsBalanced v
unfolding is_closed scan bracket
const_names-IsBalanced k v =
    lookup-IsBalanced k const_names v (is_closed-TableBalanced const_names refl)

text-IsBalanced : (s : Text) → plain s ≡ true → IsBalanced (codes "\\text{" ++ (s ++ codes "}"))
unfolding scan bracket
text-IsBalanced s h = record { closed = skip (IsBalanced-plain s h) (b'{' ∷ []) (codes "}") }

pub const_name-IsBalanced : (s : Text) → plain s ≡ true → IsBalanced (const_name s)
unfolding const_name
const_name-IsBalanced s h =
    IsBalanced-if (has_prefix s (codes "\""))
      (text-IsBalanced (trim_right (trim_left s)) (trim_right-plain _ (trim_left-plain s h)))
      (or_else-IsBalanced _ _ (const_names-IsBalanced s) (mathrm-IsBalanced s h))
