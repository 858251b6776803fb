-- ===== src/Auth/Authenticator/Sessions.antt =====
-- The tokens of auth/auth.go over time: logins, social logins, and calls with the tokens they gave.
use go_mathsearch.Base.{
  ℕ, true, false, not, ◌&&◌, List, [], ◌∷◌, Option, none, some, ◌==◌, ==_iff, ==_refl, nat_eq,
  pair_eq, contains, Bool-cases, All, ◌≡◌, ◌⊎◌, refl, sym, subst, ◌∙◌, inl, inr, arith,
}
use go_mathsearch.Base.Text.{Text, text_eq, text_beq, lookup}
use go_mathsearch.Auth.Authenticator.{
  role_privileged, role_social, Claims, Method, Crypto, Authenticator, bearer, key_for, refused,
  granted, issue, login, parse, require, annotate,
}
use go_mathsearch.Auth.Authenticator.Granted.{login-some, require-granted_iff}

-- The tokens given out, the names and passwords that logins succeeded with, and the principals that
-- `Require` ran a handler for.
pub record State : Type 0 where
  pub tokens : List Text
  pub logins : List (Text × Text)
  pub admitted : List (Text × Text)

abbrev pub start : State
start = record { tokens = []; logins = []; admitted = [] }

-- A parser that returns no other subject and role than those that were signed.
abbrev pub IsFaithful : Crypto → Type 0
IsFaithful C =
    (secret : Text) (key : Method → Option Text) (now : ℕ) (token : Text) (signed claims : Claims)
    → C.signed_string secret signed ≡ some token
    → C.parse_with_claims key now token ≡ some claims
    → ◌≡◌ {A = Text × Text} (claims.subject, claims.role) (signed.subject, signed.role)

module _ (C : Crypto) (a : Authenticator) where
  -- A token that is presented is one that was given out.
  pub data Step : State → State → Type 0 where
    logs_in :
        {s : State} (now : ℕ) (username password token : Text)
        → login C a now username password ≡ some token
        → Step s (record s { tokens = token ∷ s.tokens; logins = (username, password) ∷ s.logins })
    signs_in :
        {s : State} (now : ℕ) (subject token : Text)
        → issue C a now subject role_social ≡ some token
        → Step s (record s { tokens = token ∷ s.tokens })
    calls :
        {s : State} (now : ℕ) (header : Text) (p : Text × Text)
        → contains (bearer header) s.tokens ≡ true
        → require C a now header ≡ granted p
        → Step s (record s { admitted = p ∷ s.admitted })
    is_refused :
        {s : State} (now status : ℕ) (header message : Text)
        → require C a now header ≡ refused status message
        → Step s s

  pub data Reachable : State → Type 0 where
    initially : Reachable start
    then_step : {s t : State} → Reachable s → Step s t → Reachable t

  -- The user has logged in with a password that its hash matches.
  abbrev pub HasLoggedIn : List (Text × Text) → Text → Type 0
  HasLoggedIn logins username =
      (password hash : Text) × (contains (username, password) logins ≡ true)
      × (lookup username a.users ≡ some hash)
      × (C.compare hash password ≡ true)

  -- A principal is not privileged, or has logged in.
  abbrev pub IsEarned : List (Text × Text) → Text × Text → Type 0
  IsEarned logins p = ((p.1 == role_privileged) ≡ false) ⊎ HasLoggedIn logins p.0

  -- A token was signed for an earned principal.
  abbrev pub IsIssued : List (Text × Text) → Text → Type 0
  IsIssued logins token =
      (claims : Claims) × (C.signed_string a.secret claims ≡ some token)
      × IsEarned logins (claims.subject, claims.role)

  record IsSafe (s : State) : Type 0 where
    issued : All (IsIssued s.logins) s.tokens
    earned : All (IsEarned s.logins) s.admitted

  weaken :
      (q : Text × Text) (logins : List (Text × Text)) (p : Text × Text)
      → IsEarned logins p
      → IsEarned (q ∷ logins) p
  unfolding contains
  weaken q logins p (inl plain) = inl plain
  weaken q logins p (inr (password, hash, before, found, right)) =
      inr (password, hash, ground (arith, before), found, right)

  IsIssued-weaken :
      (q : Text × Text) (logins : List (Text × Text)) (ts : List Text)
      → All (IsIssued logins) ts
      → All (IsIssued (q ∷ logins)) ts
  IsIssued-weaken q logins [] a = tt
  IsIssued-weaken q logins (t ∷ ts) ((claims, signed, e), rest) = (
    (claims, signed, weaken q logins (claims.subject, claims.role) e),
    IsIssued-weaken q logins ts rest,
  )

  IsEarned-weaken :
      (q : Text × Text) (logins ps : List (Text × Text))
      → All (IsEarned logins) ps
      → All (IsEarned (q ∷ logins)) ps
  IsEarned-weaken q logins [] a = tt
  IsEarned-weaken q logins (p ∷ ps) (e, rest) =
      (weaken q logins p e, IsEarned-weaken q logins ps rest)

  -- A token given out was issued.
  contains-IsIssued :
      (logins : List (Text × Text)) (token : Text) (ts : List Text)
      → All (IsIssued logins) ts
      → contains token ts ≡ true
      → IsIssued logins token
  unfolding contains
  contains-IsIssued logins token [] a h = cc
  contains-IsIssued logins token (t ∷ ts) (here, rest) h = elim (Bool-cases (t == token)) [
    | inl same ↦ subst (IsIssued logins) ((==_iff t token).0 same) here
    | inr other ↦ contains-IsIssued logins token ts rest (rw other at h)
  ]

  -- The claims of a principal that `Require` lets in.
  require-parse :
      (now : ℕ) (header : Text) (p : Text × Text)
      → require C a now header ≡ granted p
      → (claims : Claims) × (parse C a now (bearer header) ≡ some claims)
        × ((claims.subject, claims.role) ≡ p)
  unfolding annotate
  require-parse now header p h =
      let attached = (require-granted_iff C a now header p).0 h in
      elim (Bool-cases (a.enabled && not (bearer header == []))) [
        | inl asked ↦ go (parse C a now (bearer header)) refl (rw asked at attached)
        | inr not_asked ↦ let impossible : none ≡ some p = rw not_asked at attached in cc
      ]
    where
      go :
          (o : Option Claims)
          → parse C a now (bearer header) ≡ o
          → elim o [ none ↦ none | some claims ↦ some (claims.subject, claims.role) ] ≡ some p
          → (claims : Claims) × (parse C a now (bearer header) ≡ some claims)
            × ((claims.subject, claims.role) ≡ p)
      go none is k = cc
      go (some claims) is k = (claims, is, cc)

  Step-IsSafe : IsFaithful C → {s t : State} → IsSafe s → Step s t → IsSafe t
  unfolding contains issue parse text_beq
  Step-IsSafe faithful {s} safe (logs_in now username password token h) =
      let (hash, found, right, signed) = login-some C a now username password token h in
      let here : HasLoggedIn ((username, password) ∷ s.logins) username = (
        password,
        hash,
        ground (arith, ==_refl {A = Text × Text} (username, password)),
        found,
        right,
      ) in
      record {
        issued = (
          (_, signed, inr here),
          IsIssued-weaken (username, password) s.logins s.tokens safe.issued,
        );
        earned = IsEarned-weaken (username, password) s.logins s.admitted safe.earned;
      }
  Step-IsSafe faithful {s} safe (signs_in now subject token h) = record {
    issued = ((_, h, inl refl), safe.issued);
    earned = safe.earned;
  }
  Step-IsSafe faithful {s} safe (calls now header p known h) =
      let (claims, parsed, is) = require-parse now header p h in
      let (signed, made, e) =
        contains-IsIssued s.logins (bearer header) s.tokens safe.issued known in
      let principal : (signed.subject, signed.role) ≡ p =
        sym (faithful a.secret (key_for a) now (bearer header) signed claims made parsed) ∙ is in
      record { issued = safe.issued; earned = (subst (IsEarned s.logins) principal e, safe.earned) }
  Step-IsSafe faithful safe (is_refused now status header message h) = safe

  Reachable-IsSafe : IsFaithful C → {s : State} → Reachable s → IsSafe s
  Reachable-IsSafe faithful initially = record { issued = tt; earned = tt }
  Reachable-IsSafe faithful (then_step r st) = Step-IsSafe faithful (Reachable-IsSafe faithful r) st

  -- Where the parser returns no other subject and role than those that were signed, and the tokens
  -- presented are among those given out, every principal that `Require` lets in as privileged has logged in with a
  -- password that the hash of its name matches.
  pub Reachable-IsEarned :
      IsFaithful C → {s : State} → Reachable s → All (IsEarned s.logins) s.admitted
  Reachable-IsEarned faithful r = (Reachable-IsSafe faithful r).earned
