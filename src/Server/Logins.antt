-- ===== src/Server/Logins.antt =====
-- cmd/mathsearch/serve.go: the handlers that give out tokens, `handleLogin`, `handleOAuthStart` and
-- `handleOAuthCallback`. The random state of `randomState` is a parameter, `none` where it fails.
use go_mathsearch.Base.{ℕ, not, ◌||◌, [], ◌++◌, Option, none, some, ◌==◌, nat_eq, if◌then◌else◌}
use go_mathsearch.Base.Int.{ℤ, times_nat, wrap64}
use go_mathsearch.Base.Text.{Text, codes, text_eq}
use go_mathsearch.Auth.Authenticator.{role_social, Crypto, Authenticator, issue, login}
use go_mathsearch.Auth.Oauth.{Oauth, Client, configured, auth_code_url, identified, identify}
use go_mathsearch.Server.Replies.{Response, error, internal, redirect, login_token, social_token}

-- `s.cfg.Auth.TokenTTLMin * 60`
unfoldable pub expires_in : ℤ → ℤ
expires_in token_ttl_min = wrap64 (times_nat token_ttl_min 60)

module _ (C : Crypto) (a : Authenticator) (token_ttl_min : ℤ) where
  -- `handleLogin`: a body that is not valid JSON is `none`.
  unfoldable pub handle_login : ℕ → Option (Text × Text) → Response
  unfolding login expires_in
  handle_login now none = (400, error (codes "invalid JSON"))
  handle_login now (some (username, password)) = elim (login C a now username password) [
    | none ↦ (401, error (codes "invalid credentials"))
    | some token ↦ (200, login_token token (expires_in token_ttl_min))
  ]

  -- `handleOAuthCallback`, from the cookie and from the state and the code of the query.
  unfoldable pub handle_oauth_callback :
      (L : Client) → Oauth → ℕ → Text → Option Text → Text → Text → Response
  unfolding identify issue expires_in
  handle_oauth_callback L o now provider none state code =
      (400, error (codes "invalid oauth state"))
  handle_oauth_callback L o now provider (some value) state code =
      if value == [] || not (value == state)
      then (400, error (codes "invalid oauth state"))
      else if code == []
      then (400, error (codes "missing code"))
      else (elim (identify L o provider code) [
        | identified id ↦
            elim (issue C a now (id.provider ++ (codes ":" ++ id.subject)) role_social) [
              | none ↦ (500, internal)
              | some token ↦
                  (200, social_token token id.provider id.email (expires_in token_ttl_min))
            ]
        | _ ↦ (502, internal)
      ])

-- `handleOAuthStart`: the response, and the cookie that it sets.
unfoldable pub handle_oauth_start : Client → Oauth → Option Text → Text → Response × Option Text
unfolding configured auth_code_url
handle_oauth_start L o random_state provider =
    if not (configured o provider)
    then ((404, error (codes "unknown or unconfigured provider")), none)
    else (elim random_state [
      | none ↦ ((500, error (codes "state error")), none)
      | some state ↦ elim (auth_code_url L o provider state) [
        | none ↦ ((400, internal), some state)
        | some url ↦ ((302, redirect url), some state)
      ]
    ])
