-- ===== src/Auth/Authenticator.antt =====
-- auth/auth.go: tokens issued to users and demanded of requests. The libraries are parameters: bcrypt's
-- comparison of a hash and a password, and the dates, the signing and the parsing of a JWT. Times are counted in
-- nanoseconds from Go's zero time; a `time.Duration` has 64 bits.
pub mod Granted
pub mod Sessions
use go_mathsearch.Base.{
  ℕ, Bool, true, false, not, ◌&&◌, List, [], ◌∷◌, Option, none, some, ◌==◌, nat_eq, if◌then◌else◌,
}
use go_mathsearch.Base.Int.{ℤ, pos, times_nat, wrap64, later}
use go_mathsearch.Base.Spaces.{trim_space}
use go_mathsearch.Base.Text.{Text, codes, text_eq, lookup, put}
use go_mathsearch.Auth.RateLimit.{has_prefix}
use go_mathsearch.Config.{User, Auth}
use go_mathsearch.Latexfmt.Names.{drop}

-- `RolePrivileged` and `RoleSocial`
abbrev pub role_privileged : Text
role_privileged = codes "privileged"

abbrev pub role_social : Text
role_social = codes "social"

-- `Claims`: the role, and the registered claims that are set.
pub record Claims : Type 0 where
  pub role : Text
  pub subject : Text
  pub issued_at : ℤ
  pub expires_at : ℤ

-- The signing method that a token names.
pub data Method : Type 0 where
  hmac : Method
  other : Method

-- `bcrypt.CompareHashAndPassword` without error; the time of a `jwt.NewNumericDate`; `SignedString` with
-- HS256; and `jwt.ParseWithClaims`, which asks its key function for the key and reads the time. `none` is
-- an error.
pub record Crypto : Type 0 where
  pub compare : Text → Text → Bool
  pub new_numeric_date : ℤ → ℤ
  pub signed_string : Text → Claims → Option Text
  pub parse_with_claims : (Method → Option Text) → ℕ → Text → Option Claims

-- `Authenticator`, less its clock.
pub record Authenticator : Type 0 where
  pub enabled : Bool
  pub secret : Text
  pub ttl : ℤ
  pub users : List (Text × Text)

-- The loop of `New`: the last hash of a name counts.
unfoldable pub user_map : List (Text × Text) → List User → List (Text × Text)
user_map m [] = m
user_map m (u ∷ us) = user_map (put u.username u.password_hash m) us

-- `New`; a minute has 6e10 nanoseconds.
unfoldable pub new_authenticator : Auth → Authenticator
unfolding user_map
new_authenticator a = record {
  enabled = a.enabled;
  secret = a.jwt_secret;
  ttl = wrap64 (times_nat a.token_ttl_min 60000000000);
  users = user_map [] a.users;
}

-- `bearer`, from the `Authorization` header.
unfoldable pub bearer : Text → Text
unfolding has_prefix
bearer h = if has_prefix h (codes "Bearer ") then trim_space (drop 7 h) else []

-- The key function of `Parse`.
unfoldable pub key_for : Authenticator → Method → Option Text
key_for a Method.hmac = some a.secret
key_for a Method.other = none

-- What `Require` does: the status and the text of a refusal, or the principal that the handler runs with.
pub data Verdict : Type 0 where
  refused : ℕ → Text → Verdict
  granted : Text × Text → Verdict

module _ (C : Crypto) (a : Authenticator) where
  -- `Issue`
  unfoldable pub issue : ℕ → Text → Text → Option Text
  issue now subject role = C.signed_string a.secret (record {
    role = role;
    subject = subject;
    issued_at = C.new_numeric_date (pos now);
    expires_at = C.new_numeric_date (later now a.ttl);
  })

  -- `Login`
  unfoldable pub login : ℕ → Text → Text → Option Text
  unfolding issue
  login now username password = elim (lookup username a.users) [
    | none ↦ none
    | some hash ↦ if C.compare hash password then issue now username role_privileged else none
  ]

  -- `Parse`
  unfoldable pub parse : ℕ → Text → Option Claims
  unfolding key_for
  parse now token = C.parse_with_claims (key_for a) now token

  -- `Require`
  unfoldable pub require : ℕ → Text → Verdict
  unfolding bearer parse
  require now header =
      let token = bearer header in
      if not a.enabled
      then refused 403 (codes "authentication is not enabled on this server")
      else if token == []
      then refused 401 (codes "missing Bearer token")
      else (elim (parse now token) [
        | none ↦ refused 401 (codes "invalid or expired token")
        | some claims ↦ granted (claims.subject, claims.role)
      ])

  -- `Annotate`: the principal that it attaches, if any.
  unfoldable pub annotate : ℕ → Text → Option (Text × Text)
  unfolding bearer parse
  annotate now header =
      let token = bearer header in
      if a.enabled && not (token == [])
      then (elim (parse now token) [
        | none ↦ none
        | some claims ↦ some (claims.subject, claims.role)
      ])
      else none
