-- ===== src/Feature/Rational.antt =====
-- `parseRat` of feature/feature.go, and the standard library's `strconv.ParseInt(s, 10, 64)`.
use go_mathsearch.Base.{
  ℕ, ◌+◌, ◌-◌, ◌*◌, ◌^◌, Bool, ◌&&◌, true, false, Option, none, some, [], ◌∷◌, ◌==◌, nat_eq, ltb,
  leb, if◌then◌else◌,
}
use go_mathsearch.Base.Int.{ℤ, pos, negsuc}
use go_mathsearch.Base.Text.{Text}

abbrev pub is_digit : ℕ → Bool
is_digit c = leb b'0' c && leb c b'9'

-- The value of decimal digits behind those already read.
unfoldable pub parse_digits : ℕ → Text → Option ℕ
parse_digits acc [] = some acc
parse_digits acc (c ∷ cs) =
    let rest = parse_digits (10 * acc + (c - b'0')) cs in if is_digit c then rest else none

-- At least one digit.
unfoldable pub parse_uint : Text → Option ℕ
unfolding parse_digits
parse_uint [] = none
parse_uint (c ∷ cs) = parse_digits 0 (c ∷ cs)

-- The integer of a sign and an absolute value, if 64 bits hold it.
unfoldable pub signed : Bool → ℕ → Option ℤ
signed true n =
    if n == 0 then some (pos 0) else if leb n (2 ^ 63) then some (negsuc (n - 1)) else none
signed false n = if ltb n (2 ^ 63) then some (pos n) else none

unfoldable pub with_sign : Bool → Text → Option ℤ
unfolding parse_uint signed
with_sign negative s = elim (parse_uint s) [ none ↦ none | some n ↦ signed negative n ]

unfoldable pub parse_int : Text → Option ℤ
unfolding with_sign
parse_int [] = none
parse_int (c ∷ cs) =
    if c == b'+'
    then with_sign false cs
    else if c == b'-'
    then with_sign true cs
    else with_sign false (c ∷ cs)

-- `strings.IndexByte(body, '/')`, `body[:i]` and `body[i+1:]`, where there is a slash.
unfoldable pub split_slash : Text → Option (Text × Text)
split_slash [] = none
split_slash (c ∷ cs) =
    let rest : Option (Text × Text) = elim (split_slash cs) [
      | none ↦ none
      | some (a, b) ↦ some (c ∷ a, b)
    ] in
    if c == b'/' then some ([], cs) else rest

-- A rational leaf's numerator and denominator.
pub record Rational : Type 0 where
  pub num : ℤ
  pub den : ℤ

abbrev is_zero : ℤ → Bool
is_zero (pos n) = n == 0
is_zero (negsuc n) = false

abbrev over : Text → ℤ → Option Rational
over body den = elim (parse_int body) [
  | none ↦ none
  | some n ↦ some (record { num = n; den = den })
]

-- `ok` is false where the result is `none`.
unfoldable pub parse_rat : Text → Option Rational
unfolding parse_int split_slash
parse_rat [] = none
parse_rat (c ∷ body) =
    if c == b'#'
    then (elim (split_slash body) [
      | none ↦ over body (pos 1)
      | some (a, b) ↦ elim (parse_int b) [
        | none ↦ none
        | some d ↦ if is_zero d then none else over a d
      ]
    ])
    else none
