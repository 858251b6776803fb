-- ===== src/Server/Searches.antt =====
-- cmd/mathsearch/serve.go: the handlers that read the store, `handleStats`, `handleSearch`,
-- `handleFacets` and `handleGetProof`.
use go_mathsearch.Base.{not, ◌&&◌, List, [], ◌++◌, none, some, ◌==◌, nat_eq, if◌then◌else◌}
use go_mathsearch.Base.Text.{Text, codes, text_eq}
use go_mathsearch.Feature.Similarity.{match_query}
use go_mathsearch.Feature.Tokens.{tokens_from}
use go_mathsearch.Config.{Search}
use go_mathsearch.Store.Canonical.{Canonical, parsed, parse_error, latex_identity}
use go_mathsearch.Store.Database.{Db, Engine}
use go_mathsearch.Store.Search.{exact, fuzzy, facet_search}
use go_mathsearch.Store.Writes.{proof, count}
use go_mathsearch.Server.Replies.{
  Response, error, internal, stats, search_hits, facet_hits, stored_proof, exact_query, fuzzy_query,
  facet_query, proof_query, count_query, Reads, to_hits, to_limit,
}

module _ (E : Engine) (Q : Reads E) (K : Canonical) (cfg : Search) where
  -- `handleStats`: the error of `Count` is dropped, and the number is then 0.
  unfoldable pub handle_stats : Db E.Index → Response
  handle_stats db = (200, stats (if Q.answers count_query db then count db else 0))

  -- `handleSearch`
  unfoldable pub handle_search : Text → Db E.Index → Response
  unfolding latex_identity exact fuzzy
  handle_search q db =
      if q == [] then (400, error (codes "missing query ?q=")) else (elim (K.parse q) [
        | parse_error message ↦ (200, error (codes "parse error: " ++ message))
        | parsed expr ↦
            let canon = K.canonical expr in
            let tokens = tokens_from canon in
            if not (Q.answers (exact_query (K.signature expr)) db)
            then (500, internal)
            else if not (match_query tokens == []) && not (Q.answers (fuzzy_query tokens) db)
            then (500, internal)
            else (
              200,
              search_hits canon (to_hits (exact E (latex_identity K) (K.signature expr) db)) (
                  to_hits (
                    fuzzy E (latex_identity K) tokens (to_limit cfg.fuzzy_limit)
                      (to_limit cfg.candidate_pool) db)),
            )
      ])

  -- `handleFacets`: no hits are the same as no key "hits".
  unfoldable pub handle_facets : List Text → Db E.Index → Response
  unfolding latex_identity facet_search
  handle_facets selected db =
      if not (Q.answers (facet_query selected) db)
      then (500, internal)
      else (let found = facet_search E (latex_identity K) selected (to_limit cfg.fuzzy_limit) db in
          (200, facet_hits selected found.0 found.1 cfg.fuzzy_limit (to_hits found.2)))

  -- `handleGetProof`
  unfoldable pub handle_get_proof : Text → Db E.Index → Response
  unfolding proof
  handle_get_proof id db =
      if not (Q.answers (proof_query id) db) then (500, internal) else (elim (proof id db) [
        | none ↦ (404, error (codes "no proof for " ++ id))
        | some (system, status, text) ↦ (200, stored_proof id system status text)
      ])
