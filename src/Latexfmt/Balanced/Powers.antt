-- ===== src/Latexfmt/Balanced/Powers.antt =====
-- The brackets in the products and powers of latexfmt/latex.go.
use go_mathsearch.Base.{
  Bool, true, false, ◌&&◌, List, [], ◌∷◌, ◌++◌, nat_eq, if◌then◌else◌, Bool-cases, refl, ◌∙◌, inl,
  inr,
}
use go_mathsearch.Base.Int.{pos, negsuc}
use go_mathsearch.Base.Text.{Text, codes, text_eq}
use go_mathsearch.Latexfmt.Terms.{Doc, prec_pow, is_rat, latex, arg}
use go_mathsearch.Latexfmt.Products.{
  starts_digit, ends_digit, more_factors, join_product, is_fraction_base, raised, render_power,
}
use go_mathsearch.Latexfmt.Brackets.{
  bracket, scan, IsBalanced, IsBalanced-if, IsBalanced-append, AllBalanced, skip,
}
use go_mathsearch.Latexfmt.Balanced.Terms.{
  IsShown, nil-IsBalanced, latex-IsBalanced, arg-IsBalanced, group-IsBalanced,
}

gap-IsBalanced : (b : Bool) → IsBalanced (if b then codes " \\cdot " else codes " ")
unfolding scan bracket
gap-IsBalanced true = record { closed = refl }
gap-IsBalanced false = record { closed = refl }

more_factors-IsBalanced :
    (prev : Text) (ps : List Text) → AllBalanced ps → IsBalanced (more_factors prev ps)
unfolding more_factors
more_factors-IsBalanced prev [] a = nil-IsBalanced
more_factors-IsBalanced prev (p ∷ ps) a =
    IsBalanced-append (gap-IsBalanced (ends_digit prev && starts_digit p))
      (IsBalanced-append a.0 (more_factors-IsBalanced p ps a.1))

pub join_product-IsBalanced : (ps : List Text) → AllBalanced ps → IsBalanced (join_product ps)
unfolding join_product
join_product-IsBalanced [] a = nil-IsBalanced
join_product-IsBalanced (p ∷ ps) a = IsBalanced-append a.0 (more_factors-IsBalanced p ps a.1)

-- `s^{t}`
pub power-IsBalanced :
    (s t : Text) → IsBalanced s → IsBalanced t → IsBalanced (s ++ (codes "^{" ++ (t ++ codes "}")))
unfolding scan bracket
power-IsBalanced s t h k = record { closed = skip h [] _ ∙ skip k (b'{' ∷ []) (codes "}") }

pub sqrt-IsBalanced : (s : Text) → IsBalanced s → IsBalanced (codes "\\sqrt{" ++ (s ++ codes "}"))
unfolding scan bracket
sqrt-IsBalanced s h = record { closed = skip h (b'{' ∷ []) (codes "}") }

over_sqrt-IsBalanced :
    (s : Text) → IsBalanced s → IsBalanced (codes "\\frac{1}{\\sqrt{" ++ (s ++ codes "}}"))
unfolding scan bracket
over_sqrt-IsBalanced s h = record { closed = skip h (b'{' ∷ b'{' ∷ []) (codes "}}") }

over-IsBalanced : (s : Text) → IsBalanced s → IsBalanced (codes "\\frac{1}{" ++ (s ++ codes "}"))
unfolding scan bracket
over-IsBalanced s h = record { closed = skip h (b'{' ∷ []) (codes "}") }

raised-IsBalanced : (base exp : Doc) → IsShown base → IsShown exp → IsBalanced (raised base exp).0
unfolding raised
raised-IsBalanced base exp h k =
    power-IsBalanced _ (latex exp)
      (IsBalanced-if (is_fraction_base base)
        (group-IsBalanced (latex base) (latex-IsBalanced base h)) (arg-IsBalanced base prec_pow h))
      (latex-IsBalanced exp k)

pub render_power-IsBalanced :
    (base exp : Doc) → IsShown base → IsShown exp → IsBalanced (render_power base exp).0
unfolding render_power
render_power-IsBalanced base (Doc.const q) h k = elim (Bool-cases (is_rat q (pos 1) 2)) [
  | inl root ↦ rw root (sqrt-IsBalanced (latex base) (latex-IsBalanced base h))
  | inr other ↦ rw other (elim (Bool-cases (is_rat q (negsuc 0) 2)) [
    | inl inverse_root ↦
        rw inverse_root (over_sqrt-IsBalanced (latex base) (latex-IsBalanced base h))
    | inr again ↦ rw again (elim (Bool-cases (is_rat q (negsuc 0) 1)) [
      | inl inverse ↦
          rw inverse (over-IsBalanced (arg base prec_pow) (arg-IsBalanced base prec_pow h))
      | inr rest ↦ rw rest (raised-IsBalanced base (Doc.const q) h k)
    ])
  ])
]
render_power-IsBalanced base (Doc.free name) h k = raised-IsBalanced base (Doc.free name) h k
render_power-IsBalanced base (Doc.sym name) h k = raised-IsBalanced base (Doc.sym name) h k
render_power-IsBalanced base (Doc.op o bound text prec ks) h k =
    raised-IsBalanced base (Doc.op o bound text prec ks) h k
render_power-IsBalanced base Doc.other h k = raised-IsBalanced base Doc.other h k
