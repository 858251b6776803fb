-- ===== src/Latexfmt.antt =====
-- latexfmt/latex.go: an expression rendered as LaTeX. Expressions are those of the module
-- sorins/canonical, with the fields that the renderer reads. A `Doc` is an expression whose operators
-- carry the result of `renderOp`, so the recursion of `render` is that of `annotate`, and every helper
-- finds `render` of a subexpression at hand.
pub mod Names
pub mod Terms
pub mod Sums
pub mod Products
pub mod Heads
pub mod Brackets
pub mod Balanced
use go_mathsearch.Base.{
  ℕ, zero, suc, ◌+◌, Bool, true, false, not, ◌&&◌, ◌||◌, Option, none, some, List, [], ◌∷◌, ◌++◌,
  map, ◌==◌, nat_eq, ltb, leb, if◌then◌else◌,
}
use go_mathsearch.Base.Int.{ℤ, pos, negsuc, is_negative, int_beq, negate, show_nat, show_int}
use go_mathsearch.Base.Text.{Text, codes, text_eq}
use go_mathsearch.Feature.Similarity.{join}
use go_mathsearch.Latexfmt.Names.{symbol, const_name, func_name, subscript_func, last_of}
use go_mathsearch.Latexfmt.Terms.{
  Rat, Expr, Exprs, Doc, Docs, prec_rel, prec_plus, prec_times, prec_pow, prec_atom, is_rat,
  neg_rat, absolute, render_rat, render, latex, wrap, arg,
}
use go_mathsearch.Latexfmt.Sums.{signed_term, more_terms, render_plus}
use go_mathsearch.Latexfmt.Products.{
  is_digit, starts_digit, ends_digit, more_factors, join_product, is_fraction_base, raised,
  render_power, Product, peel, place, add_factor, add_factors, render_product, render_times,
}
use go_mathsearch.Latexfmt.Heads.{
  binder_sign, render_binder, join_args, join_rel, unary, binary, render_head, applied,
  render_generic, render_named, render_op,
}

abbrev pub to_list : Docs → List Doc
to_list Docs.nil = []
to_list (Docs.cons d ds) = d ∷ to_list ds

-- The rendering of every subexpression.
unfoldable mutual
  pub annotate : Expr → Doc
  annotate (Expr.const q) = Doc.const q
  annotate (Expr.free name) = Doc.free name
  annotate (Expr.sym name) = Doc.sym name
  annotate (Expr.op o bound ks) =
      let ds = annotate_all ks in
      let shown = render_op o bound (to_list ds) in Doc.op o bound shown.0 shown.1 ds
  annotate Expr.other = Doc.other

  pub annotate_all : Exprs → Docs
  annotate_all Exprs.nil = Docs.nil
  annotate_all (Exprs.cons e es) = Docs.cons (annotate e) (annotate_all es)

-- `LaTeX`
unfoldable pub expr_latex : Expr → Text
unfolding annotate render
expr_latex e = latex (annotate e)

-- `Identity`; a nil pointer is `none`.
unfoldable pub identity : Option Expr → Option Expr → Text
unfolding expr_latex
identity (some lhs) (some rhs) = expr_latex lhs ++ (codes " = " ++ expr_latex rhs)
identity (some lhs) none = expr_latex lhs
identity none (some rhs) = expr_latex rhs
identity none none = []
