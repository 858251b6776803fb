-- ===== src/Latexfmt/Balanced/Terms.antt =====
-- The brackets in what latexfmt/latex.go makes of one term.
use go_mathsearch.Base.{
  ℕ, zero, suc, ◌+◌, ◌/◌, ◌%◌, true, [], ◌∷◌, ◌++◌, ◌==◌, nat_eq, ltb, Bool-cases, ◌≡◌, refl, ◌∙◌,
  inl, inr, arith, All,
}
use go_mathsearch.Base.Int.{ℤ, pos, negsuc, is_negative, digits, show_nat, show_int}
use go_mathsearch.Base.Text.{Text, codes}
use go_mathsearch.Latexfmt.Terms.{Rat, Doc, Docs, absolute, render_rat, render, latex, wrap, arg}
use go_mathsearch.Latexfmt.{to_list}
use go_mathsearch.Latexfmt.Brackets.{
  bracket, scan, plain, IsBalanced, IsBalanced-plain, IsBalanced-if, IsBalanced-append, skip,
}
use go_mathsearch.Latexfmt.Balanced.Names.{symbol-IsBalanced, const_name-IsBalanced}

-- The names have no bracket, and the texts are balanced.
abbrev mutual
  pub IsShown : Doc → Type 0
  IsShown (Doc.const q) = Unit
  IsShown (Doc.free name) = plain name ≡ true
  IsShown (Doc.sym name) = plain name ≡ true
  IsShown (Doc.op o bound text prec ks) =
      (plain o ≡ true) × (plain bound ≡ true) × IsBalanced text × AllShown ks
  IsShown Doc.other = Unit

  pub AllShown : Docs → Type 0
  AllShown Docs.nil = Unit
  AllShown (Docs.cons d ds) = IsShown d × AllShown ds

pub to_list-All : (ds : Docs) → AllShown ds → All IsShown (to_list ds)
to_list-All Docs.nil a = tt
to_list-All (Docs.cons d ds) a = (a.0, to_list-All ds a.1)

digits-plain : (f n : ℕ) (out : Text) → plain out ≡ true → plain (digits f n out) ≡ true
unfolding digits plain
digits-plain zero n out h = h
digits-plain (suc f) n out h =
    ground (arith, digits-plain f (n / 10) ((b'0' + n % 10) ∷ out) (ground (arith, h)))

show_nat-IsBalanced : (n : ℕ) → IsBalanced (show_nat n)
unfolding show_nat plain
show_nat-IsBalanced n = IsBalanced-plain _ (digits-plain (suc n) n [] refl)

pub minus-IsBalanced : IsBalanced (codes "-")
unfolding scan bracket
minus-IsBalanced = record { closed = refl }

pub nil-IsBalanced : IsBalanced []
unfolding scan
nil-IsBalanced = record { closed = refl }

absolute-IsBalanced : (n : ℤ) → IsBalanced (absolute n)
absolute-IsBalanced (pos n) = show_nat-IsBalanced n
absolute-IsBalanced (negsuc n) = show_nat-IsBalanced (suc n)

show_int-IsBalanced : (n : ℤ) → IsBalanced (show_int n)
unfolding show_int
show_int-IsBalanced (pos n) = show_nat-IsBalanced n
show_int-IsBalanced (negsuc n) = IsBalanced-append minus-IsBalanced (show_nat-IsBalanced (suc n))

-- `\frac{s}{t}`
pub frac-IsBalanced :
    (s t : Text)
    → IsBalanced s
    → IsBalanced t
    → IsBalanced (codes "\\frac{" ++ (s ++ (codes "}{" ++ (t ++ codes "}"))))
unfolding scan bracket
frac-IsBalanced s t h k = record { closed = skip h _ _ ∙ skip k _ _ }

pub render_rat-IsBalanced : (q : Rat) → IsBalanced (render_rat q).0
unfolding render_rat
render_rat-IsBalanced q = elim (Bool-cases (q.den == 1)) [
  | inl whole ↦ rw whole (show_int-IsBalanced q.num)
  | inr part ↦ rw part (
      IsBalanced-append (IsBalanced-if (is_negative q.num) minus-IsBalanced nil-IsBalanced) (
        frac-IsBalanced (absolute q.num) (show_nat q.den) (absolute-IsBalanced q.num)
          (show_nat-IsBalanced q.den)))
]

pub latex-IsBalanced : (d : Doc) → IsShown d → IsBalanced (latex d)
unfolding render
latex-IsBalanced (Doc.const q) h = render_rat-IsBalanced q
latex-IsBalanced (Doc.free name) h = symbol-IsBalanced name h
latex-IsBalanced (Doc.sym name) h = const_name-IsBalanced name h
latex-IsBalanced (Doc.op o bound text prec ks) h = h.2
latex-IsBalanced Doc.other h = nil-IsBalanced

-- `\left(s\right)`
pub group-IsBalanced :
    (s : Text) → IsBalanced s → IsBalanced (codes "\\left(" ++ (s ++ codes "\\right)"))
unfolding scan bracket
group-IsBalanced s h = record { closed = skip h (b'(' ∷ []) (codes "\\right)") }

pub arg-IsBalanced : (d : Doc) (need : ℕ) → IsShown d → IsBalanced (arg d need)
unfolding arg wrap
arg-IsBalanced d need h =
    let inside = latex-IsBalanced d h in
    IsBalanced-if (ltb (render d).1 need) (group-IsBalanced (latex d) inside) inside
