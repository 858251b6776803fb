-- ===== src/Tests/Settings.antt =====
-- A configuration loaded by config/config.go, and expressions rendered by latexfmt/latex.go.
use go_mathsearch.Base.{true, ◌||◌, [], some, ◌==◌, nat_eq, ◌≡◌, refl, subst, arith}
use go_mathsearch.Base.Int.{pos, negsuc, wrap64, show_int}
use go_mathsearch.Base.Text.{Text, codes, text_eq, text_beq, lookup}
use go_mathsearch.Config.{Config, default, Environment, accepted, tuned, validate, overridden, load}
use go_mathsearch.Config.Valid.{IsValid, IsSmall, load-IsValid}
use go_mathsearch.Latexfmt.{identity, expr_latex, annotate}
use go_mathsearch.Latexfmt.Terms.{Expr, Exprs}
use go_mathsearch.Latexfmt.Heads.{render_op}
use go_mathsearch.Latexfmt.Names.{symbol}
use go_mathsearch.Latexfmt.Brackets.{plain, IsBalanced}
use go_mathsearch.Latexfmt.Balanced.Identity.{IsPlain, identity-IsBalanced}

abbrev switched_on : Config
switched_on = record default {
  search = record { fuzzy_limit = pos 0; candidate_pool = pos 3 };
  auth = record default.auth { enabled = true; token_ttl_min = negsuc 0 };
}

abbrev environment : Environment
environment = record {
  read_file = λ path. some (codes "{}");
  unmarshal = λ raw c. some switched_on;
  getenv = λ name. codes "s3cret";
}

abbrev result : Config
result = record switched_on {
  search = record { fuzzy_limit = pos 25; candidate_pool = pos 125 };
  auth = record switched_on.auth { jwt_secret = codes "s3cret"; token_ttl_min = pos 60 };
}

loaded : load environment (codes "config.json") ≡ accepted result
unfolding load overridden validate tuned wrap64 text_beq
loaded = refl

limit-IsSmall :
    (raw : Text) (c : Config)
    → environment.unmarshal raw default ≡ some c
    → IsSmall c.search.fuzzy_limit
limit-IsSmall raw c h =
    let same : switched_on ≡ c = cc in
    subst (λ (d : Config). IsSmall d.search.fuzzy_limit) same (omega arith)

load-IsValid_example :
    IsValid result
    × ((environment.getenv (codes "MATHSEARCH_JWT_SECRET") == []
          || result.auth.jwt_secret == environment.getenv (codes "MATHSEARCH_JWT_SECRET"))
        ≡ true)
    × (validate result ≡ accepted result)
load-IsValid_example = load-IsValid environment (codes "config.json") result limit-IsSmall loaded

-- `Power[x, 1/2]` and `Sin[alpha]`
abbrev root : Expr
root = Expr.op (codes "Power") [] (
    Exprs.cons (Expr.free (codes "x"))
      (Exprs.cons (Expr.const (record { num = pos 1; den = 2 })) Exprs.nil))

abbrev sine : Expr
sine = Expr.op (codes "Sin") [] (Exprs.cons (Expr.free (codes "alpha")) Exprs.nil)

root-IsPlain : IsPlain root
unfolding plain
root-IsPlain = (refl, refl, (refl, (tt, tt)))

sine-IsPlain : IsPlain sine
unfolding plain
sine-IsPlain = (refl, refl, (refl, tt))

identity-IsBalanced_example : IsBalanced (identity (some root) (some sine))
identity-IsBalanced_example = identity-IsBalanced (some root) (some sine) root-IsPlain sine-IsPlain

abbrev power : Expr → Expr → Expr
power base exp = Expr.op (codes "Power") [] (Exprs.cons base (Exprs.cons exp Exprs.nil))

-- A power of a power, and a power of a negative number.
tower :
    expr_latex
      (power (power (Expr.free (codes "x")) (Expr.free (codes "a"))) (Expr.free (codes "b")))
    ≡ codes "x^{a}^{b}"
unfolding expr_latex annotate render_op symbol show_int text_beq lookup
tower = refl

negative_base :
    expr_latex (power (Expr.const (record { num = negsuc 1; den = 1 })) (Expr.free (codes "n")))
    ≡ codes "-2^{n}"
unfolding expr_latex annotate render_op symbol show_int text_beq lookup
negative_base = refl
