-- ===== src/Tests/Crypto.antt =====
-- A signer whose tokens hold the claims and the secret in clear, for the tests of auth/auth.go.
use go_mathsearch.Base.{
  ℕ, zero, suc, Bool, true, ◌&&◌, [], ◌∷◌, ◌++◌, length, take, take-append, Option, none, some,
  nat_eq, if◌then◌else◌, Bool-cases, ◌≡◌, refl, sym, subst, inl, inr, arith,
}
use go_mathsearch.Base.Int.{ℤ, pos, negsuc, int_ltb, truncate}
use go_mathsearch.Base.Text.{Text, codes, text_eq, text_beq_iff, text_beq}
use go_mathsearch.Latexfmt.Names.{drop}
use go_mathsearch.Auth.Authenticator.{role_privileged, Claims, Method, Crypto, Authenticator}
use go_mathsearch.Auth.Authenticator.Granted.{second, KeepsSeconds, principal_of, IsParser}
use go_mathsearch.Auth.Authenticator.Sessions.{IsFaithful}

-- A date as two numbers, and a date from them.
abbrev date_sign : ℤ → ℕ
date_sign (pos n) = 0
date_sign (negsuc n) = 1

abbrev date_size : ℤ → ℕ
date_size (pos n) = n
date_size (negsuc n) = n

abbrev date_of : ℕ → ℕ → ℤ
date_of zero n = pos n
date_of (suc k) n = negsuc n

date_of_sign : (d : ℤ) → date_of (date_sign d) (date_size d) ≡ d
date_of_sign (pos n) = refl
date_of_sign (negsuc n) = refl

-- The date that the claims expire at, the lengths of the role and the subject, and these with the secret.
-- The date of issue is left out.
abbrev pub token_of : Text → Claims → Text
token_of secret c =
    date_sign c.expires_at
    ∷ date_size c.expires_at
    ∷ length c.role
    ∷ length c.subject
    ∷ (c.role ++ (c.subject ++ secret))

abbrev opened : Text → Option (Text × Claims)
opened (s ∷ d ∷ m ∷ n ∷ t) = some (
  drop n (drop m t),
  record {
    role = take m t;
    subject = take n (drop m t);
    issued_at = pos 0;
    expires_at = date_of s d;
  },
)
opened _ = none

drop-append : (s t : Text) → drop (length s) (s ++ t) ≡ t
unfolding drop
drop-append [] t = refl
drop-append (c ∷ s) t = drop-append s t

opened-token_of :
    (secret : Text) (c : Claims)
    → opened (token_of secret c) ≡ some (secret, record c { issued_at = pos 0 })
opened-token_of secret c = rw (
  drop-append c.role (c.subject ++ secret),
  drop-append c.subject secret,
  take-append c.role (c.subject ++ secret),
  take-append c.subject secret,
  date_of_sign c.expires_at,
)

abbrev checked : Text → ℕ → Option (Text × Claims) → Option Claims
checked secret now none = none
checked secret now (some (s, c)) =
    if text_beq s secret && int_ltb (pos now) c.expires_at then some c else none

abbrev pub crypto : Crypto
crypto = record {
  compare = λ hash password. text_beq hash (b'#' ∷ password);
  new_numeric_date = truncate second;
  signed_string = λ secret c. some (token_of secret c);
  parse_with_claims = λ key now token. elim (key Method.hmac) [
    | none ↦ none
    | some secret ↦ checked secret now (opened token)
  ];
}

abbrev pub key_text : Text
key_text = codes "k"

-- What Bob is given.
abbrev pub token_text : Text
token_text = token_of key_text (record {
  role = role_privileged;
  subject = codes "bob";
  issued_at = pos 0;
  expires_at = pos 3600000000000;
})

abbrev pub authenticator : Authenticator
authenticator = record {
  enabled = true;
  secret = key_text;
  ttl = pos 3600000000000;
  users = (codes "bob", codes "#pw") ∷ [];
}

pub crypto-KeepsSeconds : KeepsSeconds crypto
crypto-KeepsSeconds t = refl

pub crypto-IsParser : IsParser crypto
crypto-IsParser secret key now token claims t is signed whole exact =
    let made : token_of secret claims ≡ token = cc in
    subst Right made
      (rw is (read (opened (token_of secret claims)) (opened-token_of secret claims)))
  where
    Right : Text → Type 0
    Right u =
        principal_of (crypto.parse_with_claims key now u)
        ≡ (if int_ltb (pos now) claims.expires_at then some (claims.subject, claims.role) else none)

    go :
        (alive : Bool)
        → principal_of (if alive then some (record claims { issued_at = pos 0 }) else none)
          ≡ (if alive then some (claims.subject, claims.role) else none)
    go alive = ground arith

    read :
        (o : Option (Text × Claims))
        → o ≡ some (secret, record claims { issued_at = pos 0 })
        → principal_of (checked secret now o) ≡ (
            if int_ltb (pos now) claims.expires_at
            then some (claims.subject, claims.role)
            else none)
    read o r =
        let right : text_beq secret secret ≡ true = (text_beq_iff secret secret).1 refl in
        rw (r, right) (go (int_ltb (pos now) claims.expires_at))

pub crypto-IsFaithful : IsFaithful crypto
crypto-IsFaithful secret key now token signed claims made parsed =
    let is : token_of secret signed ≡ token = cc in
    go (key Method.hmac) (subst Parsed (sym is) parsed)
  where
    Parsed : Text → Type 0
    Parsed u = crypto.parse_with_claims key now u ≡ some claims

    read :
        (s : Text) (o : Option (Text × Claims))
        → o ≡ some (secret, record signed { issued_at = pos 0 })
        → checked s now o ≡ some claims
        → ◌≡◌ {A = Text × Text} (claims.subject, claims.role) (signed.subject, signed.role)
    read s o is h = elim (Bool-cases (text_beq secret s && int_ltb (pos now) signed.expires_at)) [
      | inl right ↦
          let same : some (record signed { issued_at = pos 0 }) ≡ some claims =
            rw (is, right) at h in
          cc
      | inr wrong ↦ let impossible : none ≡ some claims = rw (is, wrong) at h in cc
    ]

    go :
        (o : Option Text)
        → elim o [ none ↦ none | some s ↦ checked s now (opened (token_of secret signed)) ]
          ≡ some claims
        → ◌≡◌ {A = Text × Text} (claims.subject, claims.role) (signed.subject, signed.role)
    go none h = cc
    go (some s) h = read s (opened (token_of secret signed)) (opened-token_of secret signed) h
