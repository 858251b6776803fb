-- ===== src/Latexfmt/Balanced/Sums.antt =====
-- The brackets in the sums of latexfmt/latex.go.
use go_mathsearch.Base.{
  ◌+◌, Bool, true, false, List, [], ◌∷◌, ◌==◌, nat_eq, if◌then◌else◌, refl, All,
}
use go_mathsearch.Base.Int.{is_negative}
use go_mathsearch.Base.Text.{Text, codes, text_eq}
use go_mathsearch.Latexfmt.Terms.{Doc, Docs, prec_plus, neg_rat}
use go_mathsearch.Latexfmt.Sums.{signed_term, more_terms, render_plus}
use go_mathsearch.Latexfmt.Brackets.{bracket, scan, IsBalanced, IsBalanced-if, IsBalanced-append}
use go_mathsearch.Latexfmt.Balanced.Terms.{
  IsShown, nil-IsBalanced, minus-IsBalanced, render_rat-IsBalanced, arg-IsBalanced,
}

-- Either of two balanced texts, with a sign.
IsBalanced-if_signed :
    (b : Bool) (s t : Text)
    → IsBalanced s
    → IsBalanced t
    → IsBalanced ((λ (r : Text × Bool). r.0) (if b then (s, true) else (t, false)))
IsBalanced-if_signed true s t h k = h
IsBalanced-if_signed false s t h k = k

signed_term-IsBalanced : (d : Doc) → IsShown d → IsBalanced (signed_term d).0
unfolding signed_term
signed_term-IsBalanced (Doc.const q) h =
    IsBalanced-if_signed (is_negative q.num) _ _ (render_rat-IsBalanced (neg_rat q))
      (arg-IsBalanced (Doc.const q) prec_plus h)
signed_term-IsBalanced (Doc.op o bound text prec (Docs.cons k Docs.nil)) h =
    IsBalanced-if_signed (o == codes "Minus") _ _ (arg-IsBalanced k (prec_plus + 1) h.3.0)
      (arg-IsBalanced (Doc.op o bound text prec (Docs.cons k Docs.nil)) prec_plus h)
signed_term-IsBalanced (Doc.op o bound text prec Docs.nil) h =
    arg-IsBalanced (Doc.op o bound text prec Docs.nil) prec_plus h
signed_term-IsBalanced (Doc.op o bound text prec (Docs.cons k (Docs.cons l ks))) h =
    arg-IsBalanced (Doc.op o bound text prec (Docs.cons k (Docs.cons l ks))) prec_plus h
signed_term-IsBalanced (Doc.free name) h = arg-IsBalanced (Doc.free name) prec_plus h
signed_term-IsBalanced (Doc.sym name) h = arg-IsBalanced (Doc.sym name) prec_plus h
signed_term-IsBalanced Doc.other h = arg-IsBalanced Doc.other prec_plus h

sign-IsBalanced : (b : Bool) → IsBalanced (if b then codes " - " else codes " + ")
unfolding scan bracket
sign-IsBalanced true = record { closed = refl }
sign-IsBalanced false = record { closed = refl }

more_terms-IsBalanced : (ds : List Doc) → All IsShown ds → IsBalanced (more_terms ds)
unfolding more_terms
more_terms-IsBalanced [] a = nil-IsBalanced
more_terms-IsBalanced (d ∷ ds) a =
    IsBalanced-append (sign-IsBalanced (signed_term d).1)
      (IsBalanced-append (signed_term-IsBalanced d a.0) (more_terms-IsBalanced ds a.1))

pub render_plus-IsBalanced : (ds : List Doc) → All IsShown ds → IsBalanced (render_plus ds)
unfolding render_plus
render_plus-IsBalanced [] a = nil-IsBalanced
render_plus-IsBalanced (d ∷ ds) a =
    IsBalanced-append (IsBalanced-if (signed_term d).1 minus-IsBalanced nil-IsBalanced)
      (IsBalanced-append (signed_term-IsBalanced d a.0) (more_terms-IsBalanced ds a.1))
