-- ===== src/Latexfmt/Sums.antt =====
-- latexfmt/latex.go: `signedTerm` and `renderPlus`.
use go_mathsearch.Base.{◌+◌, Bool, true, false, List, [], ◌∷◌, ◌++◌, ◌==◌, nat_eq, if◌then◌else◌}
use go_mathsearch.Base.Int.{is_negative}
use go_mathsearch.Base.Text.{Text, codes, text_eq}
use go_mathsearch.Latexfmt.Terms.{Doc, Docs, prec_plus, neg_rat, render_rat, arg}

-- `signedTerm`: the body, and whether its sign is -1.
unfoldable pub signed_term : Doc → Text × Bool
unfolding arg render_rat
signed_term (Doc.const q) =
    if is_negative q.num
    then ((render_rat (neg_rat q)).0, true)
    else (arg (Doc.const q) prec_plus, false)
signed_term (Doc.op o bound text prec (Docs.cons k Docs.nil)) =
    if o == codes "Minus"
    then (arg k (prec_plus + 1), true)
    else (arg (Doc.op o bound text prec (Docs.cons k Docs.nil)) prec_plus, false)
signed_term d = (arg d prec_plus, false)

-- The loop of `renderPlus`, behind the first summand.
unfoldable pub more_terms : List Doc → Text
unfolding signed_term
more_terms [] = []
more_terms (d ∷ ds) =
    let term = signed_term d in
    (if term.1 then codes " - " else codes " + ") ++ (term.0 ++ more_terms ds)

unfoldable pub render_plus : List Doc → Text
unfolding signed_term more_terms
render_plus [] = []
render_plus (d ∷ ds) =
    let term = signed_term d in (if term.1 then codes "-" else []) ++ (term.0 ++ more_terms ds)
