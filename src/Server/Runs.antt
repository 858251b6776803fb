-- ===== src/Server/Runs.antt =====
-- The tables of the store over a run of requests to the server of cmd/mathsearch/serve.go.
use go_mathsearch.Base.{
  ℕ, ◌||◌, List, [], ◌∷◌, Option, none, some, ◌==◌, nat_eq, if◌then◌else◌, Bool-cases, inl, inr,
}
use go_mathsearch.Base.Text.{Text, codes, text_eq}
use go_mathsearch.Auth.Authenticator.{Verdict, refused, granted, require}
use go_mathsearch.Config.{Config}
use go_mathsearch.Store.Database.{Db, Engine, IsFresh, Statement, effect}
use go_mathsearch.Store.Writes.{Outcome, done, failed, state, set_proof, exec}
use go_mathsearch.Store.Writes.Consistent.{IsConsistent}
use go_mathsearch.Server.Replies.{ProofBody, Response, error, internal, proof_set}
use go_mathsearch.Server.Edits.{handle_add_formula, handle_put_proof}
use go_mathsearch.Server.Stored.{handle_add_formula-IsConsistent}
use go_mathsearch.Server.{
  Call, index, docs, open_api, get_stats, get_search, get_facets, get_proof, post_login,
  oauth_start, oauth_callback, post_formula, put_proof, unmatched, HttpRequest, Libraries, State,
  authenticator, required, dispatch, serve,
}
use go_mathsearch.Store.Canonical.{Canonical}
use go_mathsearch.Server.Guarded.{answered-db}

-- `SetProof` leaves the tables of formulas and facets alone.
set_proof-IsConsistent :
    (E : Engine) (id system status text : Text) (db : Db E.Index)
    → IsConsistent db
    → IsConsistent (state (set_proof E id system status text db))
unfolding set_proof exec effect
set_proof-IsConsistent E id system status text db c =
    elim (Bool-cases (E.allows (Statement.insert_proof id system status text) db)) [
      | inl allowed ↦ rw allowed (record {
        ids_distinct = c.ids_distinct;
        keys_distinct = c.keys_distinct;
        facets_right = c.facets_right;
        facets_owned = c.facets_owned;
      })
      | inr refusal ↦ rw refusal c
    ]

handle_put_proof-IsConsistent :
    (E : Engine) (K : Canonical) (id : Text) (body : Option ProofBody) (db : Db E.Index)
    → IsConsistent db
    → IsConsistent (handle_put_proof E K id body db).1
unfolding handle_put_proof
handle_put_proof-IsConsistent E K id none db c = c
handle_put_proof-IsConsistent E K id (some b) db c =
    let status = if b.status == [] then codes "draft" else b.status in
    elim (Bool-cases (b.system == [] || b.proof == [])) [
      | inl missing ↦ rw missing c
      | inr given ↦ rw given (
          go (set_proof E id b.system status b.proof db)
            (set_proof-IsConsistent E id b.system status b.proof db c))
    ]
  where
    go :
        (o : Outcome (Db E.Index))
        → IsConsistent (state o)
        → IsConsistent
            (elim o as (λ _. Response × Db E.Index) [
              | failed same ↦ ((500, internal), same)
              | done new ↦ (
                (200, proof_set id b.system (if b.status == [] then codes "draft" else b.status)),
                new,
              )
            ]).1
    go (failed same) k = k
    go (done new) k = k

module _ (L : Libraries) (cfg : Config) where
  required-IsConsistent :
      (now : ℕ) (authorization : Text) (handler : Db L.engine.Index → Response × Db L.engine.Index)
      (db : Db L.engine.Index)
      → IsConsistent db
      → IsConsistent (handler db).1
      → IsConsistent (required L cfg now authorization handler db).1
  unfolding required
  required-IsConsistent now authorization handler db c k =
      go (require L.crypto (authenticator L cfg) now authorization)
    where
      go :
          (v : Verdict)
          → IsConsistent
              (elim v as (λ _. Response × Db L.engine.Index) [
                | refused status message ↦ ((status, error message), db)
                | granted principal ↦ handler db
              ]).1
      go (refused status message) = c
      go (granted p) = k

  dispatch-IsConsistent :
      (now : ℕ) (r : HttpRequest) (db : Db L.engine.Index)
      → IsFresh L.engine
      → IsConsistent db
      → IsConsistent (dispatch L cfg now r db).1
  unfolding dispatch
  dispatch-IsConsistent now r db fresh c = go r.call
    where
      go : (call : Call) → IsConsistent (dispatch L cfg now (record r { call = call }) db).1
      go index = c
      go docs = c
      go open_api = c
      go get_stats = c
      go (get_search q) = c
      go (get_facets selected) = c
      go (get_proof id) = c
      go (post_login credentials) = c
      go (oauth_start provider st) = c
      go (oauth_callback provider cookie st code) = c
      go (post_formula entry) =
          required-IsConsistent now r.authorization (handle_add_formula L.engine L.canon entry) db c
            (handle_add_formula-IsConsistent L.engine L.canon entry db fresh c)
      go (put_proof id body) =
          required-IsConsistent now r.authorization (handle_put_proof L.engine L.canon id body) db c
            (handle_put_proof-IsConsistent L.engine L.canon id body db c)
      go (unmatched status) = c

  -- A run of requests, each with the time it comes in: the answers, and the last state.
  unfoldable pub run : List (ℕ × HttpRequest) → State L → List Response × State L
  unfolding serve
  run [] s = ([], s)
  run ((now, r) ∷ rs) s =
      let first = serve L cfg now r s in let rest = run rs first.1 in (first.0 ∷ rest.0, rest.1)

  -- If a new row id is one that no row has, the tables stay consistent over any run of requests, whatever
  -- is answered to each.
  pub run-IsConsistent :
      (rs : List (ℕ × HttpRequest)) (s : State L)
      → IsFresh L.engine
      → IsConsistent s.db
      → IsConsistent (run rs s).1.db
  unfolding run
  run-IsConsistent [] s fresh c = c
  run-IsConsistent ((now, r) ∷ rs) s fresh c = run-IsConsistent rs (serve L cfg now r s).1 fresh (
      answered-db L cfg IsConsistent _ (dispatch L cfg now r s.db) _ s
        (dispatch-IsConsistent now r s.db fresh c) c)
