-- ===== src/Server/Edits.antt =====
-- cmd/mathsearch/serve.go: the handlers that write to the store, `handleAddFormula` and
-- `handlePutProof`. A body that is not valid JSON is `none`.
use go_mathsearch.Base.{
  ℕ, suc, ◌||◌, List, [], ◌∷◌, ◌++◌, Option, none, some, ◌==◌, nat_eq, if◌then◌else◌,
}
use go_mathsearch.Base.Text.{Text, codes, text_eq, put}
use go_mathsearch.Feature.Similarity.{document}
use go_mathsearch.Feature.Tokens.{tokens_from}
use go_mathsearch.Latexfmt.Terms.{Expr}
use go_mathsearch.Store.{Formula}
use go_mathsearch.Store.Canonical.{Canonical, parsed, parse_error}
use go_mathsearch.Store.Database.{Db, Engine}
use go_mathsearch.Store.Writes.{done, failed, upsert, set_proof}
use go_mathsearch.Server.Replies.{Entry, ProofBody, Response, error, internal, indexed, proof_set}

-- The formula of a side of an entry.
abbrev pub formula_of : Canonical → Entry → Text → Text → Expr → Formula
formula_of K e side mma expr = record {
  entry_id = e.id;
  side = side;
  label = e.label;
  source = e.source;
  class = e.class;
  latex = e.latex;
  mma = mma;
  canonical = K.canonical expr;
  signature = K.signature expr;
  verified = e.verified;
}

-- The two sides that the handlers range over.
abbrev pub sides_of : Entry → List (Text × Text)
sides_of e = (codes "lhs", e.lhs) ∷ (codes "rhs", e.rhs) ∷ []

module _ (E : Engine) (K : Canonical) where
  -- The loop of `handleAddFormula`, and what follows it.
  unfoldable pub add_sides :
      Entry → List (Text × Text) → List (Text × Text) → ℕ → Db E.Index → Response × Db E.Index
  unfolding upsert
  add_sides e [] sigs n db =
      if n == 0
      then ((400, error (codes "at least one of lhs/rhs is required")), db)
      else ((200, indexed n sigs), db)
  add_sides e ((side, mma) ∷ sides) sigs n db =
      let skipped = add_sides e sides sigs n db in
      if mma == [] then skipped else (elim (K.parse mma) [
        | parse_error message ↦ ((400, error (side ++ (codes " parse error: " ++ message))), db)
        | parsed expr ↦
            elim (upsert E (formula_of K e side mma expr)
              (document (tokens_from (K.canonical expr))) db) [
                | failed same ↦ ((500, internal), same)
                | done new ↦ add_sides e sides (put side (K.signature expr) sigs) (suc n) new
              ]
      ])

  -- `handleAddFormula`
  unfoldable pub handle_add_formula : Option Entry → Db E.Index → Response × Db E.Index
  unfolding add_sides
  handle_add_formula none db = ((400, error (codes "invalid JSON")), db)
  handle_add_formula (some e) db =
      if e.id == []
      then ((400, error (codes "id is required")), db)
      else add_sides e (sides_of e) [] 0 db

  -- `handlePutProof`
  unfoldable pub handle_put_proof : Text → Option ProofBody → Db E.Index → Response × Db E.Index
  unfolding set_proof
  handle_put_proof id none db = ((400, error (codes "invalid JSON")), db)
  handle_put_proof id (some b) db =
      let status = if b.status == [] then codes "draft" else b.status in
      if b.system == [] || b.proof == []
      then ((400, error (codes "system and proof are required")), db)
      else (elim (set_proof E id b.system status b.proof db) [
        | failed same ↦ ((500, internal), same)
        | done new ↦ ((200, proof_set id b.system status), new)
      ])
