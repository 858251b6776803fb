-- ===== src/Latexfmt/Balanced/Identity.antt =====
-- The brackets in the renderings that latexfmt/latex.go exports, `LaTeX` and `Identity`.
use go_mathsearch.Base.{true, Option, none, some, ◌++◌, nat_eq, ◌≡◌, refl}
use go_mathsearch.Base.Text.{Text, codes, text_eq}
use go_mathsearch.Latexfmt.{to_list, annotate, annotate_all, expr_latex, identity}
use go_mathsearch.Latexfmt.Terms.{Expr, Exprs}
use go_mathsearch.Latexfmt.Brackets.{plain, IsBalanced, IsBalanced-plain, IsBalanced-append}
use go_mathsearch.Latexfmt.Balanced.Terms.{
  IsShown, AllShown, to_list-All, nil-IsBalanced, latex-IsBalanced,
}
use go_mathsearch.Latexfmt.Balanced.Operators.{render_op-IsBalanced}

-- No name in the expression has a bracket.
abbrev mutual
  pub IsPlain : Expr → Type 0
  IsPlain (Expr.const q) = Unit
  IsPlain (Expr.free name) = plain name ≡ true
  IsPlain (Expr.sym name) = plain name ≡ true
  IsPlain (Expr.op o bound ks) = (plain o ≡ true) × (plain bound ≡ true) × AllPlain ks
  IsPlain Expr.other = Unit

  pub AllPlain : Exprs → Type 0
  AllPlain Exprs.nil = Unit
  AllPlain (Exprs.cons e es) = IsPlain e × AllPlain es

mutual
  unfolding annotate

  annotate-IsShown : (e : Expr) → IsPlain e → IsShown (annotate e)
  annotate-IsShown (Expr.const q) h = tt
  annotate-IsShown (Expr.free name) h = h
  annotate-IsShown (Expr.sym name) h = h
  annotate-IsShown (Expr.op o bound ks) h =
      let below = annotate_all-AllShown ks h.2 in
      (
        h.0,
        h.1,
        render_op-IsBalanced o bound (to_list (annotate_all ks)) h.0 h.1
            (to_list-All (annotate_all ks) below),
        below,
      )
  annotate-IsShown Expr.other h = tt

  annotate_all-AllShown : (es : Exprs) → AllPlain es → AllShown (annotate_all es)
  annotate_all-AllShown Exprs.nil a = tt
  annotate_all-AllShown (Exprs.cons e es) a = (annotate-IsShown e a.0, annotate_all-AllShown es a.1)

-- The LaTeX of an expression whose names have no brace and no parenthesis has its braces and parentheses
-- properly nested: each closes the last one open, is of its kind, and none is left open.
pub expr_latex-IsBalanced : (e : Expr) → IsPlain e → IsBalanced (expr_latex e)
unfolding expr_latex
expr_latex-IsBalanced e h = latex-IsBalanced (annotate e) (annotate-IsShown e h)

equated-IsBalanced :
    (s t : Text) → IsBalanced s → IsBalanced t → IsBalanced (s ++ (codes " = " ++ t))
unfolding plain
equated-IsBalanced s t h k =
    IsBalanced-append h (IsBalanced-append (IsBalanced-plain (codes " = ") refl) k)

-- A side of an identity that is there has plain names.
abbrev pub IsPlainSide : Option Expr → Type 0
IsPlainSide none = Unit
IsPlainSide (some e) = IsPlain e

-- `Identity` of two sides whose names have no brace and no parenthesis, of either one, or of none, has its
-- braces and parentheses properly nested: each closes the last one open, is of its kind, and none is left
-- open.
pub identity-IsBalanced :
    (lhs rhs : Option Expr) → IsPlainSide lhs → IsPlainSide rhs → IsBalanced (identity lhs rhs)
unfolding identity
identity-IsBalanced (some l) (some r) h k =
    equated-IsBalanced _ _ (expr_latex-IsBalanced l h) (expr_latex-IsBalanced r k)
identity-IsBalanced (some l) none h k = expr_latex-IsBalanced l h
identity-IsBalanced none (some r) h k = expr_latex-IsBalanced r k
identity-IsBalanced none none h k = nil-IsBalanced
