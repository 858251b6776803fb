-- ===== src/Latexfmt/Balanced/Operators.antt =====
-- The brackets in what `renderOp` of latexfmt/latex.go returns.
use go_mathsearch.Base.{
  ℕ, ◌+◌, Bool, true, false, ◌||◌, Option, none, some, List, [], ◌∷◌, ◌++◌, ◌==◌, nat_eq,
  if◌then◌else◌, ◌≡◌, refl, subst, ◌∙◌, All,
}
use go_mathsearch.Base.Text.{Text, codes, text_eq}
use go_mathsearch.Latexfmt.Names.{func_name, subscript_func}
use go_mathsearch.Latexfmt.Terms.{Doc, prec_rel, prec_plus, prec_pow, prec_atom, latex}
use go_mathsearch.Latexfmt.Heads.{
  unary, binary, join_rel, render_relation, render_construct, render_head, applied, render_generic,
  render_named, render_op,
}
use go_mathsearch.Latexfmt.Brackets.{
  bracket, scan, plain, IsBalanced, IsBalanced-plain, IsBalanced-append, skip,
}
use go_mathsearch.Latexfmt.Balanced.Names.{func_name-IsBalanced, subscript_func-IsBalanced}
use go_mathsearch.Latexfmt.Balanced.Terms.{
  IsShown, nil-IsBalanced, minus-IsBalanced, latex-IsBalanced, arg-IsBalanced, frac-IsBalanced,
}
use go_mathsearch.Latexfmt.Balanced.Sums.{render_plus-IsBalanced}
use go_mathsearch.Latexfmt.Balanced.Powers.{sqrt-IsBalanced, render_power-IsBalanced}
use go_mathsearch.Latexfmt.Balanced.Products.{render_times-IsBalanced}
use go_mathsearch.Latexfmt.Balanced.Heads.{
  render_binder-IsBalanced, join_args-IsBalanced, join_rel-IsBalanced,
}

-- A result, if there is one, is balanced.
record IsSafe (o : Option (Text × ℕ)) : Type 0 where
  shown : (r : Text × ℕ) → o ≡ some r → IsBalanced r.0

IsSafe-some : (r : Text × ℕ) → IsBalanced r.0 → IsSafe (some r)
IsSafe-some r h = record {
  shown = λ q e. let same : r ≡ q = cc in subst (λ (p : Text × ℕ). IsBalanced p.0) same h;
}

IsSafe-none : IsSafe none
IsSafe-none = record { shown = λ q e. cc }

IsSafe-if : (b : Bool) {o p : Option (Text × ℕ)} → IsSafe o → IsSafe p → IsSafe (if b then o else p)
IsSafe-if true h k = h
IsSafe-if false h k = k

unary-IsSafe :
    (f : Doc → Text × ℕ) (ks : List Doc)
    → ((d : Doc) → IsShown d → IsBalanced (f d).0)
    → All IsShown ks
    → IsSafe (unary f ks)
unary-IsSafe f [] h a = IsSafe-none
unary-IsSafe f (k ∷ []) h a = IsSafe-some (f k) (h k a.0)
unary-IsSafe f (k ∷ l ∷ ks) h a = IsSafe-none

binary-IsSafe :
    (f : Doc → Doc → Text × ℕ) (ks : List Doc)
    → ((d e : Doc) → IsShown d → IsShown e → IsBalanced (f d e).0)
    → All IsShown ks
    → IsSafe (binary f ks)
binary-IsSafe f [] h a = IsSafe-none
binary-IsSafe f (k ∷ []) h a = IsSafe-none
binary-IsSafe f (k ∷ l ∷ []) h a = IsSafe-some (f k l) (h k l a.0 a.1.0)
binary-IsSafe f (k ∷ l ∷ m ∷ ks) h a = IsSafe-none

-- `pre s post`, `s mid t`, `pre{s}rest` and `pre{s}{t}`.
around-IsBalanced :
    (pre post : Text) {s : Text}
    → plain pre ≡ true
    → plain post ≡ true
    → IsBalanced s
    → IsBalanced (pre ++ (s ++ post))
around-IsBalanced pre post p q h =
    IsBalanced-append (IsBalanced-plain pre p) (IsBalanced-append h (IsBalanced-plain post q))

between-IsBalanced :
    (mid : Text) {s t : Text}
    → plain mid ≡ true
    → IsBalanced s
    → IsBalanced t
    → IsBalanced (s ++ (mid ++ t))
between-IsBalanced mid m h k = IsBalanced-append h (IsBalanced-append (IsBalanced-plain mid m) k)

braced-IsBalanced :
    {s t : Text} → IsBalanced s → IsBalanced t → IsBalanced (b'{' ∷ (s ++ (b'}' ∷ t)))
unfolding scan bracket
braced-IsBalanced {s} {t} h k = record { closed = skip h (b'{' ∷ []) (b'}' ∷ t) ∙ k.closed }

command-IsBalanced :
    (pre : Text) {s t : Text}
    → plain pre ≡ true
    → IsBalanced s
    → IsBalanced t
    → IsBalanced (pre ++ (b'{' ∷ (s ++ (b'}' ∷ t))))
command-IsBalanced pre p h k = IsBalanced-append (IsBalanced-plain pre p) (braced-IsBalanced h k)

relation-IsSafe :
    (ks : List Doc) (rel : Text)
    → plain rel ≡ true
    → All IsShown ks
    → IsSafe (some (join_rel ks rel, prec_rel))
relation-IsSafe ks rel p a = IsSafe-some _ (join_rel-IsBalanced ks rel p a)

render_relation-IsSafe : (o : Text) (ks : List Doc) → All IsShown ks → IsSafe (render_relation o ks)
unfolding render_relation plain
render_relation-IsSafe o ks a =
    IsSafe-if (o == codes "Equal") (relation-IsSafe ks (codes " = ") refl a) (
      IsSafe-if (o == codes "Unequal") (relation-IsSafe ks (codes "\\neq ") refl a) (
        IsSafe-if (o == codes "Less") (relation-IsSafe ks (codes " < ") refl a) (
          IsSafe-if (o == codes "LessEqual") (relation-IsSafe ks (codes "\\leq ") refl a) (
            IsSafe-if (o == codes "Greater") (relation-IsSafe ks (codes " > ") refl a) (
              IsSafe-if (o == codes "GreaterEqual") (relation-IsSafe ks (codes "\\geq ") refl a) (
                IsSafe-if (o == codes "Rule")
                  (binary-IsSafe _ ks
                    (λ d e h k.
                      between-IsBalanced (codes "\\to ") refl (latex-IsBalanced d h)
                        (latex-IsBalanced e k))
                    a)
                  (IsSafe-if (o == codes "Log")
                    (binary-IsSafe _ ks
                      (λ d e h k.
                        command-IsBalanced (codes "\\log_") refl (latex-IsBalanced d h)
                          (arg-IsBalanced e prec_pow k))
                      a)
                    (IsSafe-none))))))))

render_construct-IsSafe :
    (o bound : Text) (ks : List Doc)
    → plain bound ≡ true
    → All IsShown ks
    → IsSafe (render_construct o bound ks)
unfolding render_construct plain
render_construct-IsSafe o bound ks p a =
    IsSafe-if (o == codes "Integrate" || (o == codes "Sum" || o == codes "Product"))
      (IsSafe-some _ (render_binder-IsBalanced o bound ks p a))
      (IsSafe-if (o == codes "Subscript")
        (binary-IsSafe _ ks
          (λ d e h k.
            IsBalanced-append (arg-IsBalanced d prec_atom h)
              (command-IsBalanced (codes "_") refl (latex-IsBalanced e k) nil-IsBalanced))
          a)
        (IsSafe-if (o == codes "Binomial")
          (binary-IsSafe _ ks
            (λ d e h k.
              command-IsBalanced (codes "\\binom") refl (latex-IsBalanced d h)
                (braced-IsBalanced (latex-IsBalanced e k) nil-IsBalanced))
            a)
          (IsSafe-if (o == codes "Floor")
            (unary-IsSafe _ ks
              (λ d h.
                around-IsBalanced (codes "\\left\\lfloor ") (codes " \\right\\rfloor") refl refl
                  (latex-IsBalanced d h))
              a)
            (IsSafe-if (o == codes "Ceiling")
              (unary-IsSafe _ ks
                (λ d h.
                  around-IsBalanced (codes "\\left\\lceil ") (codes " \\right\\rceil") refl refl
                    (latex-IsBalanced d h))
                a)
              (render_relation-IsSafe o ks a)))))

render_head-IsSafe :
    (o bound : Text) (ks : List Doc)
    → plain bound ≡ true
    → All IsShown ks
    → IsSafe (render_head o bound ks)
unfolding render_head plain
render_head-IsSafe o bound ks p a =
    IsSafe-if (o == codes "Plus") (IsSafe-some _ (render_plus-IsBalanced ks a)) (
      IsSafe-if (o == codes "Subtract")
        (binary-IsSafe _ ks
          (λ d e h k.
            between-IsBalanced (codes " - ") refl (arg-IsBalanced d prec_plus h)
              (arg-IsBalanced e (prec_plus + 1) k))
          a)
        (IsSafe-if (o == codes "Minus")
          (unary-IsSafe _ ks
            (λ d h. IsBalanced-append minus-IsBalanced (arg-IsBalanced d (prec_plus + 1) h)) a)
          (IsSafe-if (o == codes "Times") (IsSafe-some _ (render_times-IsBalanced ks a)) (
            IsSafe-if (o == codes "Divide")
              (binary-IsSafe _ ks
                (λ d e h k.
                  frac-IsBalanced (latex d) (latex e) (latex-IsBalanced d h) (latex-IsBalanced e k))
                a)
              (IsSafe-if (o == codes "Power") (binary-IsSafe _ ks render_power-IsBalanced a) (
                IsSafe-if (o == codes "Sqrt")
                  (unary-IsSafe _ ks (λ d h. sqrt-IsBalanced (latex d) (latex-IsBalanced d h)) a)
                  (IsSafe-if (o == codes "Exp")
                    (unary-IsSafe _ ks
                      (λ d h.
                        command-IsBalanced (codes "e^") refl (latex-IsBalanced d h) nil-IsBalanced)
                      a)
                    (IsSafe-if (o == codes "Abs")
                      (unary-IsSafe _ ks
                        (λ d h.
                          around-IsBalanced (codes "\\left|") (codes "\\right|") refl refl
                            (latex-IsBalanced d h))
                        a)
                      (IsSafe-if (o == codes "Factorial")
                        (unary-IsSafe _ ks
                          (λ d h.
                            IsBalanced-append (arg-IsBalanced d prec_pow h)
                              (IsBalanced-plain (codes "!") refl))
                          a)
                        (render_construct-IsSafe o bound ks p a))))))))))

applied-IsBalanced : (ks : List Doc) → All IsShown ks → IsBalanced (applied ks)
unfolding scan bracket
applied-IsBalanced ks a = record {
  closed = skip (join_args-IsBalanced ks a) (b'(' ∷ []) (codes "\\right)");
}

render_generic-IsBalanced :
    (o : Text) (ks : List Doc) → plain o ≡ true → All IsShown ks → IsBalanced (render_generic o ks)
unfolding render_generic plain
render_generic-IsBalanced o ks h a =
    command-IsBalanced (codes "\\operatorname") refl (IsBalanced-plain o h)
      (applied-IsBalanced ks a)

-- What an option gives is balanced, or else the text behind it.
found-IsBalanced :
    (o : Option Text) (f : Text → Text) (t : Text)
    → ((v : Text) → o ≡ some v → IsBalanced (f v))
    → IsBalanced t
    → IsBalanced (elim o [ some tex ↦ f tex | none ↦ t ])
found-IsBalanced none f t h k = k
found-IsBalanced (some v) f t h k = h v refl

render_named-IsBalanced :
    (o : Text) (ks : List Doc) → plain o ≡ true → All IsShown ks → IsBalanced (render_named o ks)
unfolding render_named plain
render_named-IsBalanced o [] h a =
    found-IsBalanced (func_name o) (λ tex. tex ++ applied []) _
      (λ tex e. IsBalanced-append (func_name-IsBalanced o tex e) (applied-IsBalanced [] a))
      (render_generic-IsBalanced o [] h a)
render_named-IsBalanced o (k ∷ ks) h a =
    found-IsBalanced (func_name o) (λ tex. tex ++ applied (k ∷ ks)) _
      (λ tex e. IsBalanced-append (func_name-IsBalanced o tex e) (applied-IsBalanced (k ∷ ks) a))
      (found-IsBalanced (subscript_func o)
        (λ sub. sub ++ (codes "_{" ++ (latex k ++ (codes "}" ++ applied ks)))) _
        (λ sub e. IsBalanced-append (subscript_func-IsBalanced o sub e) (
          command-IsBalanced (codes "_") refl (latex-IsBalanced k a.0) (applied-IsBalanced ks a.1)))
        (render_generic-IsBalanced o (k ∷ ks) h a))

shown_or-IsBalanced :
    (o : Option (Text × ℕ)) (t : Text × ℕ)
    → IsSafe o
    → IsBalanced t.0
    → IsBalanced ((λ (r : Text × ℕ). r.0) (elim o [ some shown ↦ shown | none ↦ t ]))
shown_or-IsBalanced none t h k = k
shown_or-IsBalanced (some r) t h k = h.shown r refl

pub render_op-IsBalanced :
    (o bound : Text) (ks : List Doc)
    → plain o ≡ true
    → plain bound ≡ true
    → All IsShown ks
    → IsBalanced (render_op o bound ks).0
unfolding render_op
render_op-IsBalanced o bound ks h k a =
    shown_or-IsBalanced (render_head o bound ks) _ (render_head-IsSafe o bound ks k a)
      (render_named-IsBalanced o ks h a)
