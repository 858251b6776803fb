-- ===== src/Server/Sides.antt =====
-- One side of an entry in the loop of `handleAddFormula` of cmd/mathsearch/serve.go.
use go_mathsearch.Base.{◌⊎◌, ◌++◌, nat_eq, pair_eq, ◌≡◌, refl, inl, inr}
use go_mathsearch.Base.Text.{Text, codes, text_eq}
use go_mathsearch.Feature.Similarity.{document}
use go_mathsearch.Feature.Tokens.{tokens_from}
use go_mathsearch.Latexfmt.Terms.{Expr}
use go_mathsearch.Store.Canonical.{Canonical, Parsed, parsed, parse_error}
use go_mathsearch.Store.Database.{Db, Engine}
use go_mathsearch.Store.Writes.{Outcome, done, failed, upsert}
use go_mathsearch.Store.Writes.Consistent.{upsert_atomic}
use go_mathsearch.Server.Replies.{Entry, Response, error, internal}
use go_mathsearch.Server.Edits.{formula_of}

module _ (E : Engine) (K : Canonical) where
  -- The features of an expression's formula.
  abbrev pub features_of : Expr → Text
  features_of expr = document (tokens_from (K.canonical expr))

  -- The rest of the loop behind a side that has been stored.
  abbrev pub Rest : Type 0
  Rest = Text → Db E.Index → Response × Db E.Index

  -- A side of the loop: an error of the parser or of the store ends it.
  abbrev pub one_side : Entry → Text → Text → Db E.Index → Rest → Response × Db E.Index
  one_side e side mma db rest = elim (K.parse mma) [
    | parse_error message ↦ ((400, error (side ++ (codes " parse error: " ++ message))), db)
    | parsed expr ↦ elim (upsert E (formula_of K e side mma expr) (features_of expr) db) [
      | failed same ↦ ((500, internal), same)
      | done new ↦ rest (K.signature expr) new
    ]
  ]

  -- A side is refused by the parser or by the store, which stays as it is, or it is stored.
  pub one_side-cases :
      (P : Response × Db E.Index → Type 0) (e : Entry) (side mma : Text) (db : Db E.Index)
      (rest : Rest)
      → ((message : Text) → P ((400, error (side ++ (codes " parse error: " ++ message))), db))
      → P ((500, internal), db)
      → ((expr : Expr) (new : Db E.Index)
          → K.parse mma ≡ parsed expr
          → upsert E (formula_of K e side mma expr) (features_of expr) db ≡ done new
          → P (rest (K.signature expr) new))
      → P (one_side e side mma db rest)
  one_side-cases P e side mma db rest unread refusal stored = read (K.parse mma) refl
    where
      written :
          (expr : Expr)
          → K.parse mma ≡ parsed expr
          → (o : Outcome (Db E.Index))
          → (o ≡ failed db)
            ⊎ ((new : Db E.Index) × (o ≡ done new)
                × (upsert E (formula_of K e side mma expr) (features_of expr) db ≡ done new))
          → P (elim o as (λ _. Response × Db E.Index) [
            | failed same ↦ ((500, internal), same)
            | done new ↦ rest (K.signature expr) new
          ])
      written expr is o (inl same) = rw same refusal
      written expr is o (inr (new, now, all)) = rw now (stored expr new is all)

      read :
          (p : Parsed)
          → K.parse mma ≡ p
          → P (elim p as (λ _. Response × Db E.Index) [
            | parse_error message ↦ ((400, error (side ++ (codes " parse error: " ++ message))), db)
            | parsed expr ↦ elim (upsert E (formula_of K e side mma expr) (features_of expr) db) [
              | failed same ↦ ((500, internal), same)
              | done new ↦ rest (K.signature expr) new
            ]
          ])
      read (parse_error message) is = unread message
      read (parsed expr) is =
          written expr is (upsert E (formula_of K e side mma expr) (features_of expr) db)
            (elim (upsert_atomic E (formula_of K e side mma expr) (features_of expr) db) [
              | inl same ↦ inl same
              | inr (new, now, all) ↦ inr (new, now, now)
            ])
