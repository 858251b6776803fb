-- ===== src/Latexfmt/Balanced/Heads.antt =====
-- The brackets in what `renderOp` of latexfmt/latex.go returns, and in the rendering of an expression.
use go_mathsearch.Base.{ℕ, ◌+◌, true, List, [], ◌∷◌, ◌++◌, map, ◌==◌, nat_eq, ◌≡◌, refl, ◌∙◌, All}
use go_mathsearch.Base.Text.{Text, codes, text_eq}
use go_mathsearch.Latexfmt.Terms.{Doc, prec_rel, prec_times, latex, arg}
use go_mathsearch.Latexfmt.Heads.{binder_sign, render_binder, join_args, join_rel}
use go_mathsearch.Latexfmt.Brackets.{
  bracket, scan, plain, IsBalanced, IsBalanced-plain, IsBalanced-if, IsBalanced-append,
  IsBalanced-join, AllBalanced, skip,
}
use go_mathsearch.Latexfmt.Balanced.Names.{symbol-IsBalanced}
use go_mathsearch.Latexfmt.Balanced.Terms.{IsShown, latex-IsBalanced, arg-IsBalanced}

binder_sign-IsBalanced : (o : Text) → IsBalanced (binder_sign o)
unfolding scan bracket
binder_sign-IsBalanced o =
    IsBalanced-if (o == codes "Integrate") (record { closed = refl })
      (IsBalanced-if (o == codes "Sum") (record { closed = refl })
        (IsBalanced-if (o == codes "Product") (record { closed = refl })
          (record { closed = refl })))

-- `_{lo}^{hi} rest`
integral-IsBalanced :
    (lo hi rest : Text)
    → IsBalanced lo
    → IsBalanced hi
    → IsBalanced rest
    → IsBalanced (codes "_{" ++ (lo ++ (codes "}^{" ++ (hi ++ (codes "} " ++ rest)))))
unfolding scan bracket
integral-IsBalanced lo hi rest h k l = record {
  closed = skip h (b'{' ∷ []) _ ∙ skip k (b'{' ∷ []) _ ∙ l.closed;
}

-- `_{bound=lo}^{hi} rest`
sum-IsBalanced :
    (bound lo hi rest : Text)
    → IsBalanced bound
    → IsBalanced lo
    → IsBalanced hi
    → IsBalanced rest
    → IsBalanced (
        codes "_{"
        ++ (bound ++ (codes "=" ++ (lo ++ (codes "}^{" ++ (hi ++ (codes "} " ++ rest)))))))
unfolding scan bracket
sum-IsBalanced bound lo hi rest b h k l = record {
  closed = skip b (b'{' ∷ []) _ ∙ skip h (b'{' ∷ []) _ ∙ skip k (b'{' ∷ []) _ ∙ l.closed;
}

-- `_{bound} rest`
over_index-IsBalanced :
    (bound rest : Text)
    → IsBalanced bound
    → IsBalanced rest
    → IsBalanced (codes "_{" ++ (bound ++ (codes "} " ++ rest)))
unfolding scan bracket
over_index-IsBalanced bound rest b l = record { closed = skip b (b'{' ∷ []) _ ∙ l.closed }

differential-IsBalanced :
    (s bound : Text) → IsBalanced s → IsBalanced bound → IsBalanced (s ++ (codes "\\,d" ++ bound))
unfolding scan bracket
differential-IsBalanced s bound h b = IsBalanced-append h (record { closed = b.closed })

spaced-IsBalanced : (s : Text) → IsBalanced s → IsBalanced (codes " " ++ s)
unfolding scan bracket
spaced-IsBalanced s h = record { closed = h.closed }

pub render_binder-IsBalanced :
    (o bound : Text) (ks : List Doc)
    → plain bound ≡ true
    → All IsShown ks
    → IsBalanced (render_binder o bound ks)
unfolding render_binder
render_binder-IsBalanced o bound [] h a = binder_sign-IsBalanced o
render_binder-IsBalanced o bound (body ∷ []) h a =
    IsBalanced-if (o == codes "Integrate")
      (IsBalanced-append (binder_sign-IsBalanced o) (
        spaced-IsBalanced _ (
          differential-IsBalanced _ _ (arg-IsBalanced body prec_times a.0)
            (symbol-IsBalanced bound h))))
      (IsBalanced-append (binder_sign-IsBalanced o) (
        over_index-IsBalanced _ _ (symbol-IsBalanced bound h) (arg-IsBalanced body prec_times a.0)))
render_binder-IsBalanced o bound (lo ∷ hi ∷ []) h a = binder_sign-IsBalanced o
render_binder-IsBalanced o bound (lo ∷ hi ∷ body ∷ []) h a =
    IsBalanced-if (o == codes "Integrate")
      (IsBalanced-append (binder_sign-IsBalanced o) (
        integral-IsBalanced _ _ _ (latex-IsBalanced lo a.0) (latex-IsBalanced hi a.1.0) (
          differential-IsBalanced _ _ (arg-IsBalanced body prec_times a.1.1.0)
            (symbol-IsBalanced bound h))))
      (IsBalanced-append (binder_sign-IsBalanced o) (
        sum-IsBalanced _ _ _ _ (symbol-IsBalanced bound h) (latex-IsBalanced lo a.0)
          (latex-IsBalanced hi a.1.0) (arg-IsBalanced body prec_times a.1.1.0)))
render_binder-IsBalanced o bound (a' ∷ b ∷ c ∷ d ∷ ks) h a = binder_sign-IsBalanced o

latexes-AllBalanced : (ks : List Doc) → All IsShown ks → AllBalanced (map latex ks)
latexes-AllBalanced [] a = tt
latexes-AllBalanced (k ∷ ks) a = (latex-IsBalanced k a.0, latexes-AllBalanced ks a.1)

args-AllBalanced :
    (need : ℕ) (ks : List Doc) → All IsShown ks → AllBalanced (map (λ d. arg d need) ks)
args-AllBalanced need [] a = tt
args-AllBalanced need (k ∷ ks) a = (arg-IsBalanced k need a.0, args-AllBalanced need ks a.1)

pub join_args-IsBalanced : (ks : List Doc) → All IsShown ks → IsBalanced (join_args ks)
unfolding join_args plain
join_args-IsBalanced ks a =
    IsBalanced-join (codes ", ") (map latex ks) (IsBalanced-plain _ refl) (latexes-AllBalanced ks a)

pub join_rel-IsBalanced :
    (ks : List Doc) (rel : Text) → plain rel ≡ true → All IsShown ks → IsBalanced (join_rel ks rel)
unfolding join_rel
join_rel-IsBalanced ks rel h a =
    IsBalanced-join rel _ (IsBalanced-plain rel h) (args-AllBalanced (prec_rel + 1) ks a)
