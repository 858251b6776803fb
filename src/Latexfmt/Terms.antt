-- ===== src/Latexfmt/Terms.antt =====
-- latexfmt/latex.go: expressions, precedences, and what `render` makes of a rendered expression.
use go_mathsearch.Base.{ℕ, suc, Bool, ◌&&◌, [], ◌++◌, ◌==◌, nat_eq, ltb, if◌then◌else◌}
use go_mathsearch.Base.Int.{ℤ, pos, negsuc, is_negative, int_beq, negate, show_nat, show_int}
use go_mathsearch.Base.Text.{Text, codes, text_eq}
use go_mathsearch.Latexfmt.Names.{symbol, const_name}

-- A `big.Rat`, in lowest terms with a positive denominator.
pub record Rat : Type 0 where
  pub num : ℤ
  pub den : ℕ

-- `const`, `free`, `sym` and `op` are the kinds `KConst`, `KFree`, `KSym` and `KOp`, with the value, the
-- name, the name, and the head, the bound variable and the children; `other` is any other kind.
mutual
  pub data Expr : Type 0 where
    const : Rat → Expr
    free : Text → Expr
    sym : Text → Expr
    op : Text → Text → Exprs → Expr
    other : Expr

  pub data Exprs : Type 0 where
    nil : Exprs
    cons : Expr → Exprs → Exprs

-- The operators also have their text and its precedence.
mutual
  pub data Doc : Type 0 where
    const : Rat → Doc
    free : Text → Doc
    sym : Text → Doc
    op : Text → Text → Text → ℕ → Docs → Doc
    other : Doc

  pub data Docs : Type 0 where
    nil : Docs
    cons : Doc → Docs → Docs

abbrev pub prec_rel : ℕ
prec_rel = 10

abbrev pub prec_plus : ℕ
prec_plus = 20

abbrev pub prec_times : ℕ
prec_times = 40

abbrev pub prec_pow : ℕ
prec_pow = 60

abbrev pub prec_atom : ℕ
prec_atom = 100

-- `r.Cmp(big.NewRat(n, d)) == 0` for a fraction in lowest terms.
abbrev pub is_rat : Rat → ℤ → ℕ → Bool
is_rat q n d = int_beq q.num n && q.den == d

abbrev pub neg_rat : Rat → Rat
neg_rat q = record q { num = negate q.num }

-- `num.String()` behind its sign.
abbrev pub absolute : ℤ → Text
absolute (pos n) = show_nat n
absolute (negsuc n) = show_nat (suc n)

-- `renderRat` of a value that is not nil.
unfoldable pub render_rat : Rat → Text × ℕ
render_rat q = if q.den == 1 then (show_int q.num, prec_atom) else (
  (if is_negative q.num then codes "-" else [])
      ++ (codes "\\frac{" ++ (absolute q.num ++ (codes "}{" ++ (show_nat q.den ++ codes "}")))),
  prec_atom,
)

unfoldable pub render : Doc → Text × ℕ
unfolding render_rat
render (Doc.const q) = render_rat q
render (Doc.free name) = (symbol name, prec_atom)
render (Doc.sym name) = (const_name name, prec_atom)
render (Doc.op o bound text prec ks) = (text, prec)
render Doc.other = ([], prec_atom)

-- `LaTeX`
abbrev pub latex : Doc → Text
latex d = (render d).0

-- Parenthesizes if the precedence is below the need.
unfoldable pub wrap : Text → ℕ → ℕ → Text
wrap s prec need = if ltb prec need then codes "\\left(" ++ (s ++ codes "\\right)") else s

unfoldable pub arg : Doc → ℕ → Text
unfolding render wrap
arg d need = wrap (render d).0 (render d).1 need
