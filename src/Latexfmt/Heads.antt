-- ===== src/Latexfmt/Heads.antt =====
-- latexfmt/latex.go: `renderBinder`, `joinArgs`, `joinRel` and `renderOp`.
use go_mathsearch.Base.{
  ℕ, ◌+◌, ◌||◌, Option, none, some, List, [], ◌∷◌, ◌++◌, map, ◌==◌, nat_eq, if◌then◌else◌,
}
use go_mathsearch.Base.Text.{Text, codes, text_eq}
use go_mathsearch.Feature.Similarity.{join}
use go_mathsearch.Latexfmt.Names.{symbol, func_name, subscript_func}
use go_mathsearch.Latexfmt.Terms.{
  Doc, prec_rel, prec_plus, prec_times, prec_pow, prec_atom, render, latex, arg,
}
use go_mathsearch.Latexfmt.Sums.{render_plus}
use go_mathsearch.Latexfmt.Products.{render_power, render_times}

-- `op` and `dsym` of `renderBinder`.
abbrev pub binder_sign : Text → Text
binder_sign o =
    if o == codes "Integrate"
    then codes "\\int"
    else if o == codes "Sum"
    then codes "\\sum"
    else if o == codes "Product"
    then codes "\\prod"
    else []

unfoldable pub render_binder : Text → Text → List Doc → Text
unfolding arg render
render_binder o bound (lo ∷ hi ∷ body ∷ []) =
    if o == codes "Integrate"
    then binder_sign o
      ++ (codes "_{"
          ++ (latex lo
              ++ (codes "}^{"
                  ++ (latex hi
                      ++ (codes "} " ++ (arg body prec_times ++ (codes "\\,d" ++ symbol bound)))))))
    else binder_sign o
      ++ (codes "_{"
          ++ (symbol bound
              ++ (codes "="
                  ++ (latex lo
                      ++ (codes "}^{" ++ (latex hi ++ (codes "} " ++ arg body prec_times)))))))
render_binder o bound (body ∷ []) =
    if o == codes "Integrate"
    then binder_sign o ++ (codes " " ++ (arg body prec_times ++ (codes "\\,d" ++ symbol bound)))
    else binder_sign o ++ (codes "_{" ++ (symbol bound ++ (codes "} " ++ arg body prec_times)))
render_binder o bound _ = binder_sign o

unfoldable pub join_args : List Doc → Text
unfolding render
join_args ks = join (codes ", ") (map latex ks)

unfoldable pub join_rel : List Doc → Text → Text
unfolding arg
join_rel ks rel = join rel (map (λ d. arg d (prec_rel + 1)) ks)

-- `if len(k) == 1`, and `if len(k) == 2`.
abbrev pub unary : (Doc → Text × ℕ) → List Doc → Option (Text × ℕ)
unary f (a ∷ []) = some (f a)
unary f _ = none

abbrev pub binary : (Doc → Doc → Text × ℕ) → List Doc → Option (Text × ℕ)
binary f (a ∷ b ∷ []) = some (f a b)
binary f _ = none

-- The cases of the `switch` of `renderOp` from `Equal` to `Log`: `none` where it is left without a return.
unfoldable pub render_relation : Text → List Doc → Option (Text × ℕ)
unfolding render arg join_rel
render_relation o ks =
    if o == codes "Equal"
    then some (join_rel ks (codes " = "), prec_rel)
    else if o == codes "Unequal"
    then some (join_rel ks (codes "\\neq "), prec_rel)
    else if o == codes "Less"
    then some (join_rel ks (codes " < "), prec_rel)
    else if o == codes "LessEqual"
    then some (join_rel ks (codes "\\leq "), prec_rel)
    else if o == codes "Greater"
    then some (join_rel ks (codes " > "), prec_rel)
    else if o == codes "GreaterEqual"
    then some (join_rel ks (codes "\\geq "), prec_rel)
    else if o == codes "Rule"
    then binary (λ a b. (latex a ++ (codes "\\to " ++ latex b), prec_rel)) ks
    else if o == codes "Log"
    then binary (λ a b. (codes "\\log_{" ++ (latex a ++ (codes "}" ++ arg b prec_pow)), prec_pow))
        ks
    else none

-- Those from `Integrate` to `Ceiling`, and the ones behind them.
unfoldable pub render_construct : Text → Text → List Doc → Option (Text × ℕ)
unfolding render arg render_binder render_relation
render_construct o bound ks =
    if o == codes "Integrate" || (o == codes "Sum" || o == codes "Product")
    then some (render_binder o bound ks, prec_times)
    else if o == codes "Subscript"
    then binary (λ a b. (arg a prec_atom ++ (codes "_{" ++ (latex b ++ codes "}")), prec_pow)) ks
    else if o == codes "Binomial"
    then binary
        (λ a b.
          (codes "\\binom{" ++ (latex a ++ (codes "}{" ++ (latex b ++ codes "}"))), prec_atom))
        ks
    else if o == codes "Floor"
    then unary (λ a. (codes "\\left\\lfloor " ++ (latex a ++ codes " \\right\\rfloor"), prec_atom))
        ks
    else if o == codes "Ceiling"
    then unary (λ a. (codes "\\left\\lceil " ++ (latex a ++ codes " \\right\\rceil"), prec_atom)) ks
    else render_relation o ks

-- The whole `switch`.
unfoldable pub render_head : Text → Text → List Doc → Option (Text × ℕ)
unfolding render arg render_plus render_times render_power render_construct
render_head o bound ks =
    if o == codes "Plus"
    then some (render_plus ks, prec_plus)
    else if o == codes "Subtract"
    then binary (λ a b. (arg a prec_plus ++ (codes " - " ++ arg b (prec_plus + 1)), prec_plus)) ks
    else if o == codes "Minus"
    then unary (λ a. (codes "-" ++ arg a (prec_plus + 1), prec_plus)) ks
    else if o == codes "Times"
    then some (render_times ks, prec_times)
    else if o == codes "Divide"
    then binary
        (λ a b. (codes "\\frac{" ++ (latex a ++ (codes "}{" ++ (latex b ++ codes "}"))), prec_atom))
        ks
    else if o == codes "Power"
    then binary render_power ks
    else if o == codes "Sqrt"
    then unary (λ a. (codes "\\sqrt{" ++ (latex a ++ codes "}"), prec_atom)) ks
    else if o == codes "Exp"
    then unary (λ a. (codes "e^{" ++ (latex a ++ codes "}"), prec_pow)) ks
    else if o == codes "Abs"
    then unary (λ a. (codes "\\left|" ++ (latex a ++ codes "\\right|"), prec_atom)) ks
    else if o == codes "Factorial"
    then unary (λ a. (arg a prec_pow ++ codes "!", prec_pow)) ks
    else render_construct o bound ks

-- `\!\left(args\right)`
abbrev pub applied : List Doc → Text
applied ks = codes "\\!\\left(" ++ (join_args ks ++ codes "\\right)")

-- The fallback of `renderOp`.
unfoldable pub render_generic : Text → List Doc → Text
unfolding join_args
render_generic o ks = codes "\\operatorname{" ++ (o ++ (codes "}" ++ applied ks))

-- `renderOp` behind the `switch`: named functions, subscripted functions, and the fallback.
unfoldable pub render_named : Text → List Doc → Text
unfolding join_args render render_generic
render_named o [] = elim (func_name o) [ some tex ↦ tex ++ applied [] | none ↦ render_generic o [] ]
render_named o (k ∷ ks) = elim (func_name o) [
  | some tex ↦ tex ++ applied (k ∷ ks)
  | none ↦ elim (subscript_func o) [
    | some sub ↦ sub ++ (codes "_{" ++ (latex k ++ (codes "}" ++ applied ks)))
    | none ↦ render_generic o (k ∷ ks)
  ]
]

-- `renderOp`
unfoldable pub render_op : Text → Text → List Doc → Text × ℕ
unfolding render_head render_named
render_op o bound ks = elim (render_head o bound ks) [
  | some shown ↦ shown
  | none ↦ (render_named o ks, prec_pow)
]
