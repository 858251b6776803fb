-- ===== src/Auth/Authenticator/Granted.antt =====
-- What a token of auth/auth.go lets its bearer do.
use go_mathsearch.Base.{
  ℕ, ◌*◌, ltb, Bool, true, false, [], ◌++◌, Option, none, some, ◌==◌, nat_eq, if◌then◌else◌,
  Bool-cases, ◌≡◌, ◌↔◌, refl, ap, ◌∙◌, inl, inr, arith,
}
use go_mathsearch.Base.Int.{ℤ, pos, negsuc, later, truncate, int_ltb}
use go_mathsearch.Base.Spaces.{trim_space}
use go_mathsearch.Base.Text.{Text, codes, text_eq, lookup}
use go_mathsearch.Auth.RateLimit.{has_prefix}
use go_mathsearch.Latexfmt.Names.{drop}
use go_mathsearch.Auth.Authenticator.{
  role_privileged, Claims, Method, Crypto, Authenticator, bearer, key_for, refused, granted, issue,
  login, parse, require, annotate,
}

bearer_of : (token : Text) → bearer (codes "Bearer " ++ token) ≡ trim_space token
unfolding bearer has_prefix drop
bearer_of token = refl

abbrev pub second : ℕ
second = 1000000000

-- The precision of the dates is a second, as it is where a program does not set `jwt.TimePrecision`.
abbrev pub KeepsSeconds : Crypto → Type 0
KeepsSeconds C = (t : ℤ) → C.new_numeric_date t ≡ truncate second t

-- A float64 has the seconds of the date exactly.
abbrev pub is_exact : ℤ → Bool
is_exact (pos n) = ltb n (9007199254740992 * second)
is_exact (negsuc n) = ltb n (9007199254740992 * second)

-- The subject and the role of the claims.
abbrev pub principal_of : Option Claims → Option (Text × Text)
principal_of none = none
principal_of (some claims) = some (claims.subject, claims.role)

-- A parser that returns the subject and the role that were signed with its key until they expire, and an
-- error from then on. The date that they expire at is in whole seconds.
abbrev pub IsParser : Crypto → Type 0
IsParser C =
    (secret : Text) (key : Method → Option Text) (now : ℕ) (token : Text) (claims : Claims) (t : ℤ)
    → key Method.hmac ≡ some secret
    → C.signed_string secret claims ≡ some token
    → claims.expires_at ≡ truncate second t
    → is_exact claims.expires_at ≡ true
    → principal_of (C.parse_with_claims key now token)
      ≡ (if int_ltb (pos now) claims.expires_at then some (claims.subject, claims.role) else none)

module _ (C : Crypto) (a : Authenticator) where
  -- `Require` runs its handler with a principal exactly if `Annotate` attaches that principal.
  pub require-granted_iff :
      (now : ℕ) (header : Text) (p : Text × Text)
      → (require C a now header ≡ granted p) ↔ (annotate C a now header ≡ some p)
  unfolding require annotate
  require-granted_iff now header p = ground arith

  -- What a login without error has checked and signed.
  pub login-some :
      (now : ℕ) (username password token : Text)
      → login C a now username password ≡ some token
      → (hash : Text) × (lookup username a.users ≡ some hash)
        × (C.compare hash password ≡ true)
        × (issue C a now username role_privileged ≡ some token)
  unfolding login
  login-some now username password token h = go (lookup username a.users) refl h
    where
      go :
          (o : Option Text)
          → lookup username a.users ≡ o
          → elim o [
            | none ↦ none
            | some hash ↦
                if C.compare hash password then issue C a now username role_privileged else none
          ]
            ≡ some token
          → (hash : Text) × (lookup username a.users ≡ some hash)
            × (C.compare hash password ≡ true)
            × (issue C a now username role_privileged ≡ some token)
      go none is k = cc
      go (some hash) is k = elim (Bool-cases (C.compare hash password)) [
        | inl right ↦ (hash, is, right, rw right at k)
        | inr wrong ↦ let impossible : none ≡ some token = rw wrong at k in cc
      ]

  -- When a login at this time expires: the lifetime of a token later, in whole seconds.
  abbrev pub expiry : ℕ → ℤ
  expiry now = truncate second (later now a.ttl)

  -- What the parser makes of the token of a login.
  parse-login :
      (now soon : ℕ) (username password token : Text)
      → KeepsSeconds C
      → IsParser C
      → is_exact (expiry now) ≡ true
      → login C a now username password ≡ some token
      → principal_of (parse C a soon token)
        ≡ (if int_ltb (pos soon) (expiry now) then some (username, role_privileged) else none)
  unfolding issue parse key_for
  parse-login now soon username password token keeps parses exact h =
      let (hash, found, right, signed) = login-some now username password token h in
      let date = keeps (later now a.ttl) in
      let claims : Claims = record {
        role = role_privileged;
        subject = username;
        issued_at = C.new_numeric_date (pos now);
        expires_at = C.new_numeric_date (later now a.ttl);
      } in
      parses a.secret (key_for a) soon token claims (later now a.ttl) refl signed date
        (ap is_exact date ∙ exact)
      ∙ ap (λ d. if int_ltb (pos soon) d then some (username, role_privileged) else none) date

  verdict_of :
      (now : ℕ) (token : Text) (alive : Bool) (p : Text × Text)
      → a.enabled ≡ true
      → (token == []) ≡ false
      → trim_space token ≡ token
      → principal_of (parse C a now token) ≡ (if alive then some p else none)
      → require C a now (codes "Bearer " ++ token)
        ≡ (if alive then granted p else refused 401 (codes "invalid or expired token"))
  unfolding require
  verdict_of now token alive p on full tight h =
      rw (bearer_of token ∙ tight, on, full) (go (parse C a now token) alive h)
    where
      go :
          (o : Option Claims) (alive : Bool)
          → principal_of o ≡ (if alive then some p else none)
          → elim o [
            | none ↦ refused 401 (codes "invalid or expired token")
            | some claims ↦ granted (claims.subject, claims.role)
          ]
            ≡ (if alive then granted p else refused 401 (codes "invalid or expired token"))
      go none true k = cc
      go none false k = refl
      go (some claims) true k = cc
      go (some claims) false k = cc

  -- Where the dates of tokens are in whole seconds, and the parser returns the subject and the role that
  -- were signed with its key until they expire and an error from then on, the token of a login lets its
  -- bearer in as that user with the privileged role until the lifetime of a token after the login, in
  -- whole seconds, and is refused with status 401 from then on. That is while authentication is on, if the
  -- token is neither empty nor surrounded by spaces, and if a float64 has the seconds of the expiry.
  pub require-login :
      (now soon : ℕ) (username password token : Text)
      → KeepsSeconds C
      → IsParser C
      → a.enabled ≡ true
      → is_exact (expiry now) ≡ true
      → (token == []) ≡ false
      → trim_space token ≡ token
      → login C a now username password ≡ some token
      → require C a soon (codes "Bearer " ++ token) ≡ (
          if int_ltb (pos soon) (expiry now)
          then granted (username, role_privileged)
          else refused 401 (codes "invalid or expired token"))
  require-login now soon username password token keeps parses on exact full tight h =
      verdict_of soon token (int_ltb (pos soon) (expiry now)) (username, role_privileged) on full
        tight (parse-login now soon username password token keeps parses exact h)
