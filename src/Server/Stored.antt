-- ===== src/Server/Stored.antt =====
-- What the handlers of cmd/mathsearch/serve.go leave in the store, and read back.
use go_mathsearch.Base.{
  ℕ, suc, true, ◌||◌, List, [], ◌∷◌, Option, none, some, ◌==◌, ==_refl, nat_eq, pair_eq,
  if◌then◌else◌, Bool-cases, ◌≡◌, subst, refl, ◌∙◌, inl, inr, arith,
}
use go_mathsearch.Base.Text.{Text, codes, text_eq, put}
use go_mathsearch.Config.{Search}
use go_mathsearch.Store.Canonical.{Canonical}
use go_mathsearch.Store.Database.{Db, Engine, IsFresh}
use go_mathsearch.Store.Writes.{Outcome, done, failed, state, set_proof, proof}
use go_mathsearch.Store.Writes.Consistent.{IsConsistent, upsert-IsConsistent}
use go_mathsearch.Store.Writes.Fields.{proof-set_proof}
use go_mathsearch.Server.Replies.{
  Entry, ProofBody, Response, internal, proof_set, stored_proof, Reads, proof_query,
}
use go_mathsearch.Server.Searches.{handle_get_proof}
use go_mathsearch.Server.Edits.{
  formula_of, sides_of, add_sides, handle_add_formula, handle_put_proof,
}
use go_mathsearch.Server.Sides.{features_of, one_side-cases}

module _ (E : Engine) (K : Canonical) where
  add_sides-IsConsistent :
      (e : Entry) (sides sigs : List (Text × Text)) (n : ℕ) (db : Db E.Index)
      → IsFresh E
      → IsConsistent db
      → IsConsistent (add_sides E K e sides sigs n db).1
  unfolding add_sides
  add_sides-IsConsistent e [] sigs n db fresh c = elim (Bool-cases (n == 0)) [
    | inl nothing ↦ rw nothing c
    | inr something ↦ rw something c
  ]
  add_sides-IsConsistent e ((side, mma) ∷ sides) sigs n db fresh c = elim (Bool-cases (mma == [])) [
    | inl empty ↦ rw empty (add_sides-IsConsistent e sides sigs n db fresh c)
    | inr full ↦ rw full (
        one_side-cases E K (λ x. IsConsistent x.1) e side mma db
          (λ sig. add_sides E K e sides (put side sig sigs) (suc n)) (λ message. c) c
          (λ expr new is up.
            let kept =
              upsert-IsConsistent E (formula_of K e side mma expr) (features_of E K expr) db fresh
                c in
            add_sides-IsConsistent e sides (put side (K.signature expr) sigs) (suc n) new fresh
              (subst (λ (o : Outcome (Db E.Index)). IsConsistent (state o)) up kept)))
  ]

  -- If a new row id is one that no row has, `handleAddFormula` keeps the tables consistent, whatever it
  -- answers.
  pub handle_add_formula-IsConsistent :
      (entry : Option Entry) (db : Db E.Index)
      → IsFresh E
      → IsConsistent db
      → IsConsistent (handle_add_formula E K entry db).1
  unfolding handle_add_formula
  handle_add_formula-IsConsistent none db fresh c = c
  handle_add_formula-IsConsistent (some e) db fresh c = elim (Bool-cases (e.id == [])) [
    | inl missing ↦ rw missing c
    | inr given ↦ rw given (add_sides-IsConsistent e (sides_of e) [] 0 db fresh c)
  ]

module _ (E : Engine) (Q : Reads E) (K : Canonical) where
  abbrev stored_status : ProofBody → Text
  stored_status b = if b.status == [] then codes "draft" else b.status

  -- What `handlePutProof` has done when it answers with status 200.
  handle_put_proof-done :
      (id : Text) (b : ProofBody) (db : Db E.Index)
      → (handle_put_proof E K id (some b) db).0.0 ≡ 200
      → set_proof E id b.system (stored_status b) b.proof db
        ≡ done (handle_put_proof E K id (some b) db).1
  unfolding handle_put_proof
  handle_put_proof-done id b db h = elim (Bool-cases (b.system == [] || b.proof == [])) [
    | inl missing ↦ let impossible : 400 ≡ 200 = rw missing at h in ground (arith, impossible)
    | inr given ↦
        rw given (go (set_proof E id b.system (stored_status b) b.proof db) refl (rw given at h))
  ]
    where
      go :
          (o : Outcome (Db E.Index))
          → set_proof E id b.system (stored_status b) b.proof db ≡ o
          → (elim o as (λ _. Response × Db E.Index) [
            | failed same ↦ ((500, internal), same)
            | done new ↦ ((200, proof_set id b.system (stored_status b)), new)
          ]).0.0
            ≡ 200
          → set_proof E id b.system (stored_status b) b.proof db
            ≡ done
                (elim o as (λ _. Response × Db E.Index) [
                  | failed same ↦ ((500, internal), same)
                  | done new ↦ ((200, proof_set id b.system (stored_status b)), new)
                ]).1
      go (failed same) is k = ground (arith, k)
      go (done new) is k = is

  -- A proof that `handlePutProof` answers with status 200 is the one that `handleGetProof` returns for its
  -- id, its status "draft" if it was empty, wherever SQLite answers the query.
  pub handle_get_proof-handle_put_proof :
      (id : Text) (b : ProofBody) (cfg : Search) (db : Db E.Index)
      → (handle_put_proof E K id (some b) db).0.0 ≡ 200
      → Q.answers (proof_query id) (handle_put_proof E K id (some b) db).1 ≡ true
      → handle_get_proof E Q K cfg id (handle_put_proof E K id (some b) db).1 ≡ (
        200,
        stored_proof id b.system (if b.status == [] then codes "draft" else b.status) b.proof,
      )
  unfolding handle_get_proof
  handle_get_proof-handle_put_proof id b cfg db h q =
      let new = (handle_put_proof E K id (some b) db).1 in
      let read : proof id new ≡ some (b.system, stored_status b, b.proof) =
        proof-set_proof E id id b.system (stored_status b) b.proof db new
          (handle_put_proof-done id b db h)
        ∙ rw (==_refl id) refl in
      rw (q, read)
