-- ===== src/Server/Limited.antt =====
-- The rate limiter over a run of requests to the server of cmd/mathsearch/serve.go, from its start.
use go_mathsearch.Base.{
  ℕ, ◌≤◌, Bool, true, false, List, [], ◌∷◌, ◌++◌, some, ◌==◌, nat_eq, ◌≡◌, refl, ap, ◌∙◌, arith,
}
use go_mathsearch.Base.Int.{pos, int_ltb}
use go_mathsearch.Base.Spaces.{trim_space}
use go_mathsearch.Base.Text.{Text, codes, text_eq}
use go_mathsearch.Auth.Authenticator.{role_privileged, granted, login, require, annotate}
use go_mathsearch.Auth.Authenticator.Granted.{
  KeepsSeconds, IsParser, is_exact, expiry, require-granted_iff, require-login,
}
use go_mathsearch.Auth.RateLimit.{RateLimiter, Request, middleware, new_rate_limiter}
use go_mathsearch.Auth.RateLimit.Buckets.{
  IsTidy, middleware-IsTidy, middleware-last_gc, middleware-exempt,
}
use go_mathsearch.Config.{Config}
use go_mathsearch.Store.Database.{Db}
use go_mathsearch.Server.Replies.{Response}
use go_mathsearch.Server.Guarded.{answered, serve_privileged}
use go_mathsearch.Server.Runs.{run}
use go_mathsearch.Server.{
  HttpRequest, client_ip, Libraries, State, started, authenticator, dispatch, serve,
}

-- The times of the requests do not go back, from this one on.
abbrev pub IsForward : ℕ → List (ℕ × HttpRequest) → Type 0
IsForward t [] = Unit
IsForward t ((now, r) ∷ rs) = (t ≤ now) × IsForward now rs

module _ (L : Libraries) (cfg : Config) where
  -- What the rate limiter reads of a request.
  abbrev seen_of : ℕ → HttpRequest → Request
  seen_of now r = record {
    path = r.path;
    principal = annotate L.crypto (authenticator L cfg) now r.authorization;
    client_ip = client_ip r;
  }

  answered-limiter :
      (passed : Bool) (answer : Response × Db L.engine.Index) (limiter : RateLimiter L.rate.Limiter)
      (s : State L)
      → (answered L cfg passed answer limiter s).1.limiter ≡ limiter
  answered-limiter true answer limiter s = refl
  answered-limiter false answer limiter s = refl

  serve-limiter :
      (now : ℕ) (r : HttpRequest) (s : State L)
      → (serve L cfg now r s).1.limiter ≡ (middleware L.rate now (seen_of now r) s.limiter).1
  unfolding serve
  serve-limiter now r s = answered-limiter _ (dispatch L cfg now r s.db) _ s

  IsTidy-run :
      (t : ℕ) (rs : List (ℕ × HttpRequest)) (s : State L)
      → IsForward t rs
      → IsTidy s.limiter
      → s.limiter.last_gc ≤ t
      → IsTidy (run L cfg rs s).1.limiter
  unfolding run
  IsTidy-run t [] s f tidy h = tidy
  IsTidy-run t ((now, r) ∷ rs) s f tidy h =
      let early : s.limiter.last_gc ≤ now = omega (arith, h, f.0) in
      IsTidy-run now rs (serve L cfg now r s).1 f.1
        (rw (serve-limiter now r s)
          (middleware-IsTidy L.rate now s.limiter (seen_of now r) tidy early))
        (rw (serve-limiter now r s) (middleware-last_gc L.rate now s.limiter (seen_of now r) early))

  -- On a clock that does not go back, the limiter of a server has one bucket for each caller, and none that
  -- was idle at the last collection, after any run of requests from its start.
  pub run-IsTidy :
      (rs : List (ℕ × HttpRequest)) (db : Db L.engine.Index)
      → IsForward 0 rs
      → IsTidy (run L cfg rs (started L cfg db)).1.limiter
  unfolding started new_rate_limiter
  run-IsTidy rs db f =
      IsTidy-run 0 rs (started L cfg db) f (record { one_each = tt; recent = tt }) (omega arith)

  exempt-run :
      (rs : List (ℕ × HttpRequest)) (s : State L)
      → (run L cfg rs s).1.limiter.exempt ≡ s.limiter.exempt
  unfolding run
  exempt-run [] s = refl
  exempt-run ((now, r) ∷ rs) s =
      exempt-run rs (serve L cfg now r s).1
      ∙ ap (λ (x : RateLimiter L.rate.Limiter). x.exempt) (serve-limiter now r s)
      ∙ middleware-exempt L.rate now s.limiter (seen_of now r)

  exempt-started :
      (db : Db L.engine.Index)
      → (started L cfg db).limiter.exempt ≡ cfg.auth.rate_limit.privileged_exempt
  unfolding started new_rate_limiter
  exempt-started db = refl

  -- Where the dates of tokens are in whole seconds and the parser returns what was signed until it expires,
  -- and the server exempts privileged callers, the bearer of the token of a login gets the answer of the
  -- handler until the token expires, and no bucket is touched, after any run of requests from the start of
  -- the server. That is while authentication is on, if the token is neither empty nor surrounded by spaces,
  -- and if a float64 has the seconds of the expiry.
  pub serve-login :
      (rs : List (ℕ × HttpRequest)) (db : Db L.engine.Index) (now soon : ℕ) (r : HttpRequest)
      (username password token : Text)
      → KeepsSeconds L.crypto
      → IsParser L.crypto
      → (authenticator L cfg).enabled ≡ true
      → cfg.auth.rate_limit.privileged_exempt ≡ true
      → is_exact (expiry L.crypto (authenticator L cfg) now) ≡ true
      → int_ltb (pos soon) (expiry L.crypto (authenticator L cfg) now) ≡ true
      → (token == []) ≡ false
      → trim_space token ≡ token
      → login L.crypto (authenticator L cfg) now username password ≡ some token
      → r.authorization ≡ codes "Bearer " ++ token
      → serve L cfg soon r (run L cfg rs (started L cfg db)).1 ≡ (
        (dispatch L cfg soon r (run L cfg rs (started L cfg db)).1.db).0,
        record {
          db = (dispatch L cfg soon r (run L cfg rs (started L cfg db)).1.db).1;
          limiter = (run L cfg rs (started L cfg db)).1.limiter;
        },
      )
  serve-login rs db now soon r username password token keeps parses on exempt exact alive full tight
        h is =
      let a = authenticator L cfg in
      let in_time : require L.crypto a soon (codes "Bearer " ++ token)
          ≡ granted (username, role_privileged) =
        require-login L.crypto a now soon username password token keeps parses on exact full tight h
        ∙ rw alive in
      let attached : annotate L.crypto a soon r.authorization ≡ some (username, role_privileged) =
        rw is ((require-granted_iff L.crypto a soon _ _).0 in_time) in
      serve_privileged L cfg soon r (run L cfg rs (started L cfg db)).1 username attached
        (exempt-run rs (started L cfg db) ∙ exempt-started db ∙ exempt)
