-- ===== src/Config/Valid.antt =====
-- What config/config.go guarantees of a configuration that `Load` returns without error.
use go_mathsearch.Base.{
  ℕ, ◌*◌, ◌<◌, true, false, ◌&&◌, ◌||◌, [], Option, none, some, ◌==◌, ==_iff, nat_eq, ltb,
  if◌then◌else◌, Bool-cases, ◌≡◌, refl, sym, ap, subst, inl, inr, arith,
}
use go_mathsearch.Base.Int.{ℤ, pos, negsuc, is_positive, int_ltb, times_nat, wrap64}
use go_mathsearch.Base.Text.{Text, codes, text_eq}
use go_mathsearch.Config.{
  Search, Config, default, rejected, accepted, unreadable, unparsable, tuned, validate, Environment,
  overridden, load,
}

-- The limits that the searches and the tokens rely on.
pub record IsValid (c : Config) : Type 0 where
  pub limit_positive : is_positive c.search.fuzzy_limit ≡ true
  pub pool_covers : int_ltb c.search.candidate_pool c.search.fuzzy_limit ≡ false
  pub lifetime_positive : is_positive c.auth.token_ttl_min ≡ true
  pub secret_set : (c.auth.enabled && c.auth.jwt_secret == []) ≡ false

-- Five times the limit is an `int`.
abbrev pub IsSmall : ℤ → Type 0
IsSmall (pos n) = n * 5 < 9223372036854775808
IsSmall (negsuc n) = Unit

wrap64_small : (n : ℕ) → n < 9223372036854775808 → wrap64 (pos n) ≡ pos n
unfolding wrap64
wrap64_small n h = ground arith

covers :
    (pool : ℤ) (n : ℕ)
    → n * 5 < 9223372036854775808
    → int_ltb (if int_ltb pool (pos n) then wrap64 (pos (n * 5)) else pool) (pos n) ≡ false
covers pool n h = elim (Bool-cases (int_ltb pool (pos n))) [
  | inl less ↦ rw (less, wrap64_small (n * 5) h) (ground arith)
  | inr enough ↦ rw enough enough
]

-- `tuned` of a limit and a pool.
tuned_of :
    (limit pool : ℤ)
    → IsSmall limit
    → let set = if is_positive limit then limit else pos 25 in
      (is_positive set ≡ true)
      × (int_ltb (if int_ltb pool set then wrap64 (times_nat set 5) else pool) set ≡ false)
tuned_of (negsuc n) pool h = (refl, covers pool 25 (omega arith))
tuned_of (pos n) pool h = elim (Bool-cases (ltb 0 n)) [
  | inl up ↦ rw up (up, covers pool n h)
  | inr down ↦ rw down (refl, covers pool 25 (omega arith))
]

tuned-IsValid :
    (s : Search)
    → IsSmall s.fuzzy_limit
    → (is_positive (tuned s).fuzzy_limit ≡ true)
      × (int_ltb (tuned s).candidate_pool (tuned s).fuzzy_limit ≡ false)
unfolding tuned
tuned-IsValid s h = tuned_of s.fuzzy_limit s.candidate_pool h

positive_or-positive : (n : ℤ) → is_positive (if is_positive n then n else pos 60) ≡ true
positive_or-positive n = elim (Bool-cases (is_positive n)) [
  | inl up ↦ rw up up
  | inr down ↦ rw down refl
]

validate-IsValid :
    (c d : Config) → IsSmall c.search.fuzzy_limit → validate c ≡ accepted d → IsValid d
unfolding validate
validate-IsValid c d h e = elim (Bool-cases (c.auth.enabled && c.auth.jwt_secret == [])) [
  | inl missing ↦ let impossible : rejected _ ≡ accepted d = rw missing at e in cc
  | inr set ↦
      let result : Config = record c {
        search = tuned c.search;
        auth = record c.auth {
          token_ttl_min = if is_positive c.auth.token_ttl_min then c.auth.token_ttl_min else pos 60;
        };
      } in
      let all : accepted result ≡ accepted d = rw set at e in
      let same : result ≡ d = cc in
      let (limit, pool) = tuned-IsValid c.search h in
      subst IsValid same (record {
        limit_positive = limit;
        pool_covers = pool;
        lifetime_positive = positive_or-positive c.auth.token_ttl_min;
        secret_set = set;
      })
]

-- What is valid is accepted as it is.
pub validate_accepted : (d : Config) → IsValid d → validate d ≡ accepted d
unfolding validate tuned
validate_accepted d v = rw (v.secret_set, v.limit_positive, v.lifetime_positive, v.pool_covers)

validate-secret : (c d : Config) → validate c ≡ accepted d → d.auth.jwt_secret ≡ c.auth.jwt_secret
unfolding validate
validate-secret c d e = elim (Bool-cases (c.auth.enabled && c.auth.jwt_secret == [])) [
  | inl missing ↦ let impossible : rejected _ ≡ accepted d = rw missing at e in cc
  | inr set ↦
      let result : Config = record c {
        search = tuned c.search;
        auth = record c.auth {
          token_ttl_min = if is_positive c.auth.token_ttl_min then c.auth.token_ttl_min else pos 60;
        };
      } in
      let all : accepted result ≡ accepted d = rw set at e in
      let same : result ≡ d = cc in ap (λ (r : Config). r.auth.jwt_secret) (sym same)
]

overridden-IsValid :
    (env : Environment) (c d : Config)
    → IsSmall c.search.fuzzy_limit
    → overridden env c ≡ accepted d
    → IsValid d
      × ((env.getenv (codes "MATHSEARCH_JWT_SECRET") == []
            || d.auth.jwt_secret == env.getenv (codes "MATHSEARCH_JWT_SECRET"))
          ≡ true)
unfolding overridden
overridden-IsValid env c d h e =
    elim (Bool-cases (env.getenv (codes "MATHSEARCH_JWT_SECRET") == [])) [
      | inl unset ↦ (validate-IsValid c d h (rw unset at e), rw unset)
      | inr set ↦
          let v = env.getenv (codes "MATHSEARCH_JWT_SECRET") in
          let given : Config = record c { auth = record c.auth { jwt_secret = v } } in
          let kept : validate given ≡ accepted d = rw set at e in
          (
            validate-IsValid given d h kept,
            rw set ((==_iff d.auth.jwt_secret v).1 (validate-secret given d kept)),
          )
    ]

-- The configuration that `Load` returns without error has a positive limit, a pool of candidates that
-- covers it, a positive lifetime of the tokens, and a secret if authentication is on; the secret is that of
-- the environment if there is one; and `validate` accepts it again as it is. Five times the limit in a file
-- is assumed to be an `int`.
pub load-IsValid :
    (env : Environment) (path : Text) (d : Config)
    → ((raw : Text) (c : Config)
        → env.unmarshal raw default ≡ some c
        → IsSmall c.search.fuzzy_limit)
    → load env path ≡ accepted d
    → IsValid d
      × ((env.getenv (codes "MATHSEARCH_JWT_SECRET") == []
            || d.auth.jwt_secret == env.getenv (codes "MATHSEARCH_JWT_SECRET"))
          ≡ true)
      × (validate d ≡ accepted d)
unfolding load
load-IsValid env path d small e = elim (Bool-cases (path == [])) [
  | inl none_given ↦ stable (overridden-IsValid env default d (omega arith) (rw none_given at e))
  | inr file ↦ stable (read (env.read_file path) (rw file at e))
]
  where
    Fine : Config → Type 0
    Fine d =
        IsValid d
        × ((env.getenv (codes "MATHSEARCH_JWT_SECRET") == []
              || d.auth.jwt_secret == env.getenv (codes "MATHSEARCH_JWT_SECRET"))
            ≡ true)

    stable :
        Fine d
        → IsValid d
          × ((env.getenv (codes "MATHSEARCH_JWT_SECRET") == []
                || d.auth.jwt_secret == env.getenv (codes "MATHSEARCH_JWT_SECRET"))
              ≡ true)
          × (validate d ≡ accepted d)
    stable f = (f.0, f.1, validate_accepted d f.0)

    decoded :
        (raw : Text) (o : Option Config)
        → env.unmarshal raw default ≡ o
        → elim o [ none ↦ unparsable | some c ↦ overridden env c ] ≡ accepted d
        → Fine d
    decoded raw none is k = cc
    decoded raw (some c) is k = overridden-IsValid env c d (small raw c is) k

    read :
        (o : Option Text)
        → elim o [
          | none ↦ unreadable
          | some raw ↦ elim (env.unmarshal raw default) [
            | none ↦ unparsable
            | some c ↦ overridden env c
          ]
        ]
          ≡ accepted d
        → Fine d
    read none k = cc
    read (some raw) k = decoded raw (env.unmarshal raw default) refl k
