-- ===== src/Server.antt =====
-- cmd/mathsearch/serve.go: the server that `cmdServe` builds, with its middleware and its routes. A request
-- comes with the handler that `http.ServeMux` picks for its method and path, and with what that handler
-- reads of the query, the path, the cookie and the decoded body.
pub mod Replies
pub mod Searches
pub mod Edits
pub mod Logins
pub mod Guarded
pub mod Sides
pub mod Stored
pub mod Added
pub mod Runs
pub mod Limited
use go_mathsearch.Base.{
  ℕ, Bool, List, [], ◌∷◌, ◌++◌, Option, none, some, ◌==◌, nat_eq, if◌then◌else◌,
}
use go_mathsearch.Base.Spaces.{trim_space}
use go_mathsearch.Base.Text.{Text, codes, text_eq}
use go_mathsearch.Auth.Authenticator.{
  Crypto, Authenticator, Verdict, refused, granted, new_authenticator, require, annotate,
}
use go_mathsearch.Auth.Oauth.{Oauth, Client, new_oauth}
use go_mathsearch.Auth.RateLimit.{Rate, RateLimiter, Request, new_rate_limiter, middleware}
use go_mathsearch.Config.{Config}
use go_mathsearch.Store.Canonical.{Canonical}
use go_mathsearch.Store.Database.{Db, Engine}
use go_mathsearch.Server.Replies.{Entry, ProofBody, Response, Reply, error, page, Reads}
use go_mathsearch.Server.Searches.{handle_stats, handle_search, handle_facets, handle_get_proof}
use go_mathsearch.Server.Edits.{handle_add_formula, handle_put_proof}
use go_mathsearch.Server.Logins.{handle_login, handle_oauth_callback, handle_oauth_start}

-- The routes of `cmdServe`, each with what its handler reads; `unmatched` is the status of a request that
-- no route takes.
pub data Call : Type 0 where
  index : Call
  docs : Call
  open_api : Call
  get_stats : Call
  get_search : Text → Call
  get_facets : List Text → Call
  get_proof : Text → Call
  post_login : Option (Text × Text) → Call
  oauth_start : Text → Option Text → Call
  oauth_callback : Text → Option Text → Text → Text → Call
  post_formula : Option Entry → Call
  put_proof : Text → Option ProofBody → Call
  unmatched : ℕ → Call

-- A request: its path, its header fields `Authorization` and `X-Forwarded-For`, its remote address with
-- the host that `net.SplitHostPort` finds in it, and its route.
pub record HttpRequest : Type 0 where
  pub path : Text
  pub authorization : Text
  pub forwarded_for : Text
  pub remote_addr : Text
  pub remote_host : Option Text
  pub call : Call

-- `strings.IndexByte(xff, ',')`: what stands in front of the first comma.
unfoldable pub before_comma : Text → Text
before_comma [] = []
before_comma (c ∷ s) = let rest = before_comma s in if c == b',' then [] else c ∷ rest

-- `clientIP`
unfoldable pub client_ip : HttpRequest → Text
unfolding before_comma
client_ip r =
    if r.forwarded_for == []
    then (elim r.remote_host [ none ↦ r.remote_addr | some host ↦ host ])
    else trim_space (before_comma r.forwarded_for)

-- The libraries of the server, and its embedded pages.
pub record Libraries : Type 1 where
  pub engine : Engine
  pub reads : Reads engine
  pub canon : Canonical
  pub crypto : Crypto
  pub client : Client
  pub rate : Rate
  pub index_html : Text
  pub docs_html : Text
  pub openapi_json : Text

module _ (L : Libraries) where
  -- What changes from one request to the next.
  pub record State : Type 0 where
    pub db : Db L.engine.Index
    pub limiter : RateLimiter L.rate.Limiter

  -- `auth.NewRateLimiter(cfg.Auth.RateLimit, "/api/")` over the open store.
  unfoldable pub started : Config → Db L.engine.Index → State
  unfolding new_rate_limiter
  started cfg db =
      let limits = cfg.auth.rate_limit in
      record {
        db = db;
        limiter =
            new_rate_limiter limits.requests_per_minute limits.burst limits.privileged_exempt
              (codes "/api/");
      }

  module _ (cfg : Config) where
    abbrev pub authenticator : Authenticator
    authenticator = new_authenticator cfg.auth

    abbrev pub oauth : Oauth
    oauth = new_oauth cfg.auth.oauth

    -- `Require` around a handler.
    unfoldable pub required :
        ℕ
        → Text
        → (Db L.engine.Index → Response × Db L.engine.Index)
        → Db L.engine.Index
        → Response × Db L.engine.Index
    unfolding require new_authenticator
    required now authorization handler db =
        elim (require L.crypto authenticator now authorization) [
          | refused status message ↦ ((status, error message), db)
          | granted principal ↦ handler db
        ]

    -- The mux, with the routes as `cmdServe` registers them.
    unfoldable pub dispatch : ℕ → HttpRequest → Db L.engine.Index → Response × Db L.engine.Index
    unfolding required handle_stats handle_search handle_facets handle_get_proof handle_add_formula
        handle_put_proof handle_login handle_oauth_callback handle_oauth_start new_oauth
    dispatch now r db = elim r.call [
      | index ↦ ((200, page L.index_html), db)
      | docs ↦ ((200, page L.docs_html), db)
      | open_api ↦ ((200, page L.openapi_json), db)
      | get_stats ↦ (handle_stats L.engine L.reads L.canon cfg.search db, db)
      | get_search q ↦ (handle_search L.engine L.reads L.canon cfg.search q db, db)
      | get_facets selected ↦ (handle_facets L.engine L.reads L.canon cfg.search selected db, db)
      | get_proof id ↦ (handle_get_proof L.engine L.reads L.canon cfg.search id db, db)
      | post_login credentials ↦
          (handle_login L.crypto authenticator cfg.auth.token_ttl_min now credentials, db)
      | oauth_start provider state ↦ ((handle_oauth_start L.client oauth state provider).0, db)
      | oauth_callback provider cookie state code ↦ (
        handle_oauth_callback L.crypto authenticator cfg.auth.token_ttl_min L.client oauth now
            provider cookie state code,
        db,
      )
      | post_formula entry ↦
          required now r.authorization (handle_add_formula L.engine L.canon entry) db
      | put_proof id body ↦
          required now r.authorization (handle_put_proof L.engine L.canon id body) db
      | unmatched status ↦ ((status, page []), db)
    ]

    -- `Annotate` around the rate limiter around the mux.
    unfoldable pub serve : ℕ → HttpRequest → State → Response × State
    unfolding annotate middleware dispatch client_ip new_authenticator
    serve now r s =
        let seen : Request = record {
          path = r.path;
          principal = annotate L.crypto authenticator now r.authorization;
          client_ip = client_ip r;
        } in
        let passed = middleware L.rate now seen s.limiter in
        let answer = dispatch now r s.db in
        if passed.0
        then (answer.0, record { db = answer.1; limiter = passed.1 })
        else ((429, error (codes "rate limit exceeded")), record s { limiter = passed.1 })
