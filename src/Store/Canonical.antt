-- ===== src/Store/Canonical.antt =====
-- What store/store.go and cmd/mathsearch use of the module sorins/canonical, as a parameter, and
-- `parseSide` and `latexIdentity` of store/store.go, which render the sides that it parses.
use go_mathsearch.Base.{[], Option, none, some, ◌==◌, if◌then◌else◌}
use go_mathsearch.Base.Text.{Text, text_eq}
use go_mathsearch.Latexfmt.{identity}
use go_mathsearch.Latexfmt.Terms.{Expr}

-- An expression, or the text of an error.
pub data Parsed : Type 0 where
  parsed : Expr → Parsed
  parse_error : Text → Parsed

-- `canonical.Parse`, `canonical.Canonical` and `canonical.Signature`.
pub record Canonical : Type 0 where
  pub parse : Text → Parsed
  pub canonical : Expr → Text
  pub signature : Expr → Text

module _ (K : Canonical) where
  -- `parseSide`: a nil pointer is `none`.
  unfoldable pub parse_side : Text → Option Expr
  parse_side mma =
      if mma == []
      then none
      else (elim (K.parse mma) [ parsed e ↦ some e | parse_error message ↦ none ])

  -- `latexIdentity`
  unfoldable pub latex_identity : Text → Text → Text
  unfolding parse_side
  latex_identity lhs_mma rhs_mma = identity (parse_side lhs_mma) (parse_side rhs_mma)
