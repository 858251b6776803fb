-- ===== src/Server/Guarded.antt =====
-- Which requests to the server of cmd/mathsearch/serve.go reach the store, and what a run of them keeps.
use go_mathsearch.Base.{
  ℕ, Bool, true, false, none, some, ==_refl, nat_eq, if◌then◌else◌, ◌≡◌, ◌⊎◌, refl, ap, inl, inr,
  arith,
}
use go_mathsearch.Base.Text.{Text, codes, text_eq}
use go_mathsearch.Auth.Authenticator.{role_privileged, Verdict, refused, granted, require, annotate}
use go_mathsearch.Auth.Authenticator.Granted.{require-granted_iff}
use go_mathsearch.Auth.RateLimit.{RateLimiter, Request, is_privileged, middleware}
use go_mathsearch.Config.{Config}
use go_mathsearch.Store.Database.{Db}
use go_mathsearch.Server.Replies.{Response, error}
use go_mathsearch.Server.Edits.{handle_add_formula, handle_put_proof}
use go_mathsearch.Server.{
  Call, index, docs, open_api, get_stats, get_search, get_facets, get_proof, post_login,
  oauth_start, oauth_callback, post_formula, put_proof, unmatched, HttpRequest, client_ip,
  Libraries, State, authenticator, required, dispatch, serve,
}

-- The routes that `Require` stands in front of.
abbrev pub is_write : Call → Bool
is_write (post_formula entry) = true
is_write (put_proof id body) = true
is_write _ = false

module _ (L : Libraries) (cfg : Config) where
  -- Without a principal `Require` does not run its handler.
  required-none :
      (now : ℕ) (authorization : Text) (handler : Db L.engine.Index → Response × Db L.engine.Index)
      (db : Db L.engine.Index)
      → annotate L.crypto (authenticator L cfg) now authorization ≡ none
      → (required L cfg now authorization handler db).1 ≡ db
  unfolding required
  required-none now authorization handler db h =
      go (require L.crypto (authenticator L cfg) now authorization) refl
    where
      go :
          (v : Verdict)
          → require L.crypto (authenticator L cfg) now authorization ≡ v
          → (elim v as (λ _. Response × Db L.engine.Index) [
            | refused status message ↦ ((status, error message), db)
            | granted principal ↦ handler db
          ]).1
            ≡ db
      go (refused status message) is = refl
      go (granted p) is =
          let attached =
            (require-granted_iff L.crypto (authenticator L cfg) now authorization p).0 is in
          cc

  dispatch-db :
      (now : ℕ) (r : HttpRequest) (db : Db L.engine.Index)
      → (is_write r.call ≡ false)
        ⊎ (annotate L.crypto (authenticator L cfg) now r.authorization ≡ none)
      → (dispatch L cfg now r db).1 ≡ db
  unfolding dispatch
  dispatch-db now r db h = go r.call h
    where
      go :
          (c : Call)
          → (is_write c ≡ false)
            ⊎ (annotate L.crypto (authenticator L cfg) now r.authorization ≡ none)
          → (dispatch L cfg now (record r { call = c }) db).1 ≡ db
      go index h = refl
      go docs h = refl
      go open_api h = refl
      go get_stats h = refl
      go (get_search q) h = refl
      go (get_facets selected) h = refl
      go (get_proof id) h = refl
      go (post_login credentials) h = refl
      go (oauth_start provider st) h = refl
      go (oauth_callback provider cookie st code) h = refl
      go (post_formula entry) (inl read) = cc
      go (post_formula entry) (inr h) =
          required-none now r.authorization (handle_add_formula L.engine L.canon entry) db h
      go (put_proof id body) (inl read) = cc
      go (put_proof id body) (inr h) =
          required-none now r.authorization (handle_put_proof L.engine L.canon id body) db h
      go (unmatched status) h = refl

  -- The answer of the handler, or the refusal for the rate.
  abbrev pub answered :
      Bool
      → Response × Db L.engine.Index
      → RateLimiter L.rate.Limiter
      → State L
      → Response × State L
  answered passed answer limiter s =
      if passed
      then (answer.0, record { db = answer.1; limiter = limiter })
      else ((429, error (codes "rate limit exceeded")), record s { limiter = limiter })

  pub answered-db :
      (P : Db L.engine.Index → Type 0) (passed : Bool) (answer : Response × Db L.engine.Index)
      (limiter : RateLimiter L.rate.Limiter) (s : State L)
      → P answer.1
      → P s.db
      → P (answered passed answer limiter s).1.db
  answered-db P true answer limiter s h k = h
  answered-db P false answer limiter s h k = k

  -- A request changes the store only if it takes one of the two routes that write, and only if `Annotate`
  -- finds a principal in its token.
  pub serve-db :
      (now : ℕ) (r : HttpRequest) (s : State L)
      → (is_write r.call ≡ false)
        ⊎ (annotate L.crypto (authenticator L cfg) now r.authorization ≡ none)
      → (serve L cfg now r s).1.db ≡ s.db
  unfolding serve
  serve-db now r s h =
      answered-db (λ db. db ≡ s.db) _ (dispatch L cfg now r s.db) _ s (dispatch-db now r s.db h)
        refl

  middleware_privileged :
      (now : ℕ) (seen : Request) (rl : RateLimiter L.rate.Limiter)
      → is_privileged seen ≡ true
      → rl.exempt ≡ true
      → middleware L.rate now seen rl ≡ (true, rl)
  unfolding middleware
  middleware_privileged now seen rl p e = ground (arith, p, e)

  -- A privileged caller of a server that exempts them is never refused for its rate: it gets the answer of
  -- the handler, and no bucket is touched.
  pub serve_privileged :
      (now : ℕ) (r : HttpRequest) (s : State L) (subject : Text)
      → annotate L.crypto (authenticator L cfg) now r.authorization
        ≡ some (subject, role_privileged)
      → s.limiter.exempt ≡ true
      → serve L cfg now r s ≡ (
        (dispatch L cfg now r s.db).0,
        record { db = (dispatch L cfg now r s.db).1; limiter = s.limiter },
      )
  unfolding serve is_privileged
  serve_privileged now r s subject h e =
      let seen : Request = record {
        path = r.path;
        principal = annotate L.crypto (authenticator L cfg) now r.authorization;
        client_ip = client_ip r;
      } in
      let privileged : is_privileged seen ≡ true = rw h (==_refl role_privileged) in
      ap (λ (m : Bool × RateLimiter L.rate.Limiter). answered m.0 (dispatch L cfg now r s.db) m.1 s)
        (middleware_privileged now seen s.limiter privileged e)
