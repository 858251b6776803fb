-- ===== src/Latexfmt/Products.antt =====
-- latexfmt/latex.go: `renderTimes`, `joinProduct` and `renderPower`.
use go_mathsearch.Base.{
  ℕ, Bool, false, not, ◌&&◌, List, [], ◌∷◌, ◌++◌, ◌==◌, nat_eq, leb, if◌then◌else◌,
}
use go_mathsearch.Base.Int.{pos, negsuc, is_negative}
use go_mathsearch.Base.Text.{Text, codes, text_eq}
use go_mathsearch.Latexfmt.Names.{last_of}
use go_mathsearch.Latexfmt.Terms.{
  Doc, Docs, prec_times, prec_pow, prec_atom, is_rat, neg_rat, render, latex, arg,
}

abbrev pub is_digit : ℕ → Bool
is_digit c = leb b'0' c && leb c b'9'

abbrev pub starts_digit : Text → Bool
starts_digit [] = false
starts_digit (c ∷ s) = is_digit c

unfoldable pub ends_digit : Text → Bool
unfolding last_of
ends_digit s = is_digit (last_of s)

-- The loop of `joinProduct`, behind the factor `prev`.
unfoldable pub more_factors : Text → List Text → Text
unfolding ends_digit
more_factors prev [] = []
more_factors prev (p ∷ ps) =
    (if ends_digit prev && starts_digit p then codes " \\cdot " else codes " ")
    ++ (p ++ more_factors p ps)

unfoldable pub join_product : List Text → Text
unfolding more_factors
join_product [] = []
join_product (p ∷ ps) = p ++ more_factors p ps

-- `isFractionBase`
unfoldable pub is_fraction_base : Doc → Bool
is_fraction_base (Doc.const q) = not (q.den == 1)
is_fraction_base (Doc.op o bound text prec ks) = o == codes "Divide"
is_fraction_base _ = false

-- `renderPower` for an exponent that is no square root and no reciprocal.
unfoldable pub raised : Doc → Doc → Text × ℕ
unfolding is_fraction_base arg render
raised base exp =
    let shown =
      if is_fraction_base base
      then codes "\\left(" ++ (latex base ++ codes "\\right)")
      else arg base prec_pow in
    (shown ++ (codes "^{" ++ (latex exp ++ codes "}")), prec_pow)

unfoldable pub render_power : Doc → Doc → Text × ℕ
unfolding raised arg render
render_power base (Doc.const q) =
    if is_rat q (pos 1) 2
    then (codes "\\sqrt{" ++ (latex base ++ codes "}"), prec_atom)
    else if is_rat q (negsuc 0) 2
    then (codes "\\frac{1}{\\sqrt{" ++ (latex base ++ codes "}}"), prec_atom)
    else if is_rat q (negsuc 0) 1
    then (codes "\\frac{1}{" ++ (arg base prec_pow ++ codes "}"), prec_atom)
    else raised base (Doc.const q)
render_power base exp = raised base exp

-- The state of the loop of `renderTimes`: whether `sign` is -1, and the two slices.
pub record Product : Type 0 where
  pub negative : Bool
  pub num : List Text
  pub den : List Text

-- `for f.Op == "Minus" ... { sign = -sign; f = f.Kids[0] }`
unfoldable pub peel : Bool → Doc → Bool × Doc
peel negative (Doc.op o bound text prec (Docs.cons k Docs.nil)) =
    let inner = peel (not negative) k in
    if o == codes "Minus"
    then inner
    else (negative, Doc.op o bound text prec (Docs.cons k Docs.nil))
peel negative d = (negative, d)

-- A factor behind its signs: a reciprocal power goes to the denominator.
unfoldable pub place : Product → Doc → Product
unfolding arg render_power
place p (Doc.op o bound text prec (Docs.cons base (Docs.cons (Doc.const q) Docs.nil))) =
    let up = record p {
      num =
          p.num
          ++ arg (Doc.op o bound text prec (Docs.cons base (Docs.cons (Doc.const q) Docs.nil)))
              prec_times
            ∷ [];
    } in
    let down = record p {
      den =
          p.den
          ++ (if is_rat (neg_rat q) (pos 1) 1
              then arg base prec_pow
              else (render_power base (Doc.const (neg_rat q))).0)
            ∷ [];
    } in
    if o == codes "Power" && is_negative q.num then down else up
place p d = record p { num = p.num ++ arg d prec_times ∷ [] }

-- A negative constant gives its sign away, and -1 nothing else.
unfoldable pub add_factor : Product → Doc → Product
unfolding place
add_factor p (Doc.const q) =
    if is_negative q.num
    then (if is_rat q (negsuc 0) 1
        then record p { negative = not p.negative }
        else place (record p { negative = not p.negative }) (Doc.const (neg_rat q)))
    else place p (Doc.const q)
add_factor p d = place p d

unfoldable pub add_factors : Product → List Doc → Product
unfolding peel add_factor
add_factors p [] = p
add_factors p (d ∷ ds) =
    let peeled = peel p.negative d in
    add_factors (add_factor (record p { negative = peeled.0 }) peeled.1) ds

unfoldable pub render_product : Product → Text
unfolding join_product
render_product p =
    let joined = join_product p.num in
    let shown = if joined == [] then codes "1" else joined in
    let out : Text = elim p.den [
      | [] ↦ shown
      | d ∷ ds ↦ codes "\\frac{" ++ (shown ++ (codes "}{" ++ (join_product (d ∷ ds) ++ codes "}")))
    ] in
    (if p.negative then codes "-" else []) ++ out

unfoldable pub render_times : List Doc → Text
unfolding add_factors render_product
render_times ks = render_product (add_factors (record { negative = false; num = []; den = [] }) ks)
