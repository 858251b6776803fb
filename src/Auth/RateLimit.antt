-- ===== src/Auth/RateLimit.antt =====
-- auth/ratelimit.go: a token bucket for each caller. The buckets of `golang.org/x/time/rate` are a
-- parameter. Times are counted in nanoseconds from Go's zero time; the float64 rate `limit` stands as
-- the requests per minute that it is made from. A request is handled at one moment, so the lock of
-- `bucketFor` has no counterpart.
pub mod Buckets
use go_mathsearch.Base.{
  ℕ, ◌-◌, ◌*◌, Bool, true, false, not, ◌&&◌, List, [], ◌∷◌, ◌++◌, Option, none, some, select, ◌==◌,
  nat_eq, ltb, if◌then◌else◌,
}
use go_mathsearch.Base.Int.{ℤ, pos, negsuc}
use go_mathsearch.Base.Text.{Text, codes, text_eq, lookup, put}

-- A `rate.Limiter`: `rate.NewLimiter` from the requests per minute and the burst, and `Allow` at a time.
pub record Rate : Type 1 where
  pub Limiter : Type 0
  pub new_limiter : ℕ → ℕ → Limiter
  pub allow : ℕ → Limiter → Bool × Limiter

pub record Bucket (Limiter : Type 0) : Type 0 where
  pub lim : Limiter
  pub seen : ℕ

pub record RateLimiter (Limiter : Type 0) : Type 0 where
  pub rpm : ℕ
  pub burst : ℕ
  pub exempt : Bool
  pub buckets : List (Text × Bucket Limiter)
  pub last_gc : ℕ
  pub path_pref : Text

-- What the middleware reads of a request. `principal` is the subject and the role of
-- `PrincipalFrom`, `client_ip` what `clientIP` returns.
pub record Request : Type 0 where
  pub path : Text
  pub principal : Option (Text × Text)
  pub client_ip : Text

-- `if n <= 0 { n = default }`
unfoldable pub positive_or : ℕ → ℤ → ℕ
positive_or default (pos n) = if n == 0 then default else n
positive_or default (negsuc n) = default

-- `NewRateLimiter`
unfoldable pub new_rate_limiter : {Limiter : Type 0} → ℤ → ℤ → Bool → Text → RateLimiter Limiter
unfolding positive_or
new_rate_limiter requests_per_minute burst privileged_exempt path_prefix =
    let rpm = positive_or 60 requests_per_minute in
    record {
      rpm = rpm;
      burst = positive_or rpm burst;
      exempt = privileged_exempt;
      buckets = [];
      last_gc = 0;
      path_pref = path_prefix;
    }

-- `10*time.Minute`
abbrev pub idle_time : ℕ
idle_time = 600000000000

-- `now.Sub(t) > 10*time.Minute`
abbrev pub is_past : ℕ → ℕ → Bool
is_past now t = ltb idle_time (now - t)

-- `strings.HasPrefix(s, prefix)`
unfoldable pub has_prefix : Text → Text → Bool
has_prefix s [] = true
has_prefix [] (p ∷ ps) = false
has_prefix (c ∷ s) (p ∷ ps) = c == p && has_prefix s ps

-- The collection of idle buckets in `bucketFor`.
unfoldable pub collect_idle : {Limiter : Type 0} → ℕ → RateLimiter Limiter → RateLimiter Limiter
collect_idle now rl =
    if is_past now rl.last_gc
    then record rl { buckets = select (λ p. not (is_past now p.1.seen)) rl.buckets; last_gc = now }
    else rl

-- `key` of the middleware.
unfoldable pub caller_key : Request → Text
caller_key r = elim r.principal [
  | some (subject, role) ↦ codes "user:" ++ subject
  | none ↦ codes "ip:" ++ r.client_ip
]

-- `authed && role == RolePrivileged`
unfoldable pub is_privileged : Request → Bool
is_privileged r = elim r.principal [
  | some (subject, role) ↦ role == codes "privileged"
  | none ↦ false
]

module _ (R : Rate) where
  -- The limiter that `bucketFor` returns: that of the key's bucket, or a new one.
  unfoldable pub limiter_of : Text → RateLimiter R.Limiter → R.Limiter
  limiter_of key rl = elim (lookup key rl.buckets) [
    | some b ↦ b.lim
    | none ↦ R.new_limiter rl.rpm rl.burst
  ]

  -- `bucketFor(key).Allow()`: the bucket has been seen now, and its limiter has counted the request.
  unfoldable pub allow_key : ℕ → Text → RateLimiter R.Limiter → Bool × RateLimiter R.Limiter
  unfolding collect_idle limiter_of
  allow_key now key rl =
      let kept = collect_idle now rl in
      let (allowed, lim) = R.allow now (limiter_of key kept) in
      (allowed, record kept { buckets = put key (record { lim = lim; seen = now }) kept.buckets })

  -- `Middleware`: whether the request goes on to the next handler, or is answered with status 429.
  unfoldable pub middleware : ℕ → Request → RateLimiter R.Limiter → Bool × RateLimiter R.Limiter
  unfolding has_prefix is_privileged caller_key allow_key
  middleware now r rl =
      if not (rl.path_pref == []) && not (has_prefix r.path rl.path_pref)
      then (true, rl)
      else if is_privileged r && rl.exempt
      then (true, rl)
      else allow_key now (caller_key r) rl
