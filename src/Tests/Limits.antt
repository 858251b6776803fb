-- ===== src/Tests/Limits.antt =====
-- The rate limiter of auth/ratelimit.go with a bucket of tokens that are never refilled.
use go_mathsearch.Base.{
  ℕ, ◌+◌, ◌-◌, ◌*◌, ◌≤◌, ◌≡◌, refl, Bool, true, false, [], ◌∷◌, none, ◌==◌, nat_eq, if◌then◌else◌,
  All, contains, arith,
}
use go_mathsearch.Base.Text.{codes, text_eq, text_beq, lookup}
use go_mathsearch.Auth.RateLimit.{
  Rate, RateLimiter, Request, idle_time, is_past, has_prefix, is_privileged, caller_key,
  collect_idle, limiter_of, allow_key, middleware,
}
use go_mathsearch.Auth.RateLimit.Buckets.{IsTidy, unless_idle, allow_key_bounds, lookup-allow_key}

abbrev take_one : ℕ → Bool × ℕ
take_one n = if n == 0 then (false, 0) else (true, n - 1)

abbrev pub tokens : Rate
tokens = record { Limiter = ℕ; new_limiter = λ rpm burst. burst; allow = λ now n. take_one n }

abbrev start : RateLimiter ℕ
start = record {
  rpm = 60;
  burst = 2;
  exempt = true;
  buckets = (codes "user:bob", record { lim = 1; seen = 5 }) ∷ [];
  last_gc = 3;
  path_pref = codes "/api/";
}

abbrev request : Request
request = record { path = codes "/api/search"; principal = none; client_ip = codes "1.2.3.4" }

start-IsTidy : IsTidy start
unfolding contains
start-IsTidy = record { one_each = (refl, tt); recent = (omega arith, tt) }

allow_key_bounds_example :
    All
      (λ p. 7 ≤ p.1.seen + 2 * idle_time)
      (allow_key tokens 7 (codes "ip:1.2.3.4") start).1.buckets
allow_key_bounds_example =
    allow_key_bounds tokens 7 start (codes "ip:1.2.3.4") start-IsTidy (omega arith)

apart : (codes "ip:1.2.3.4" == codes "user:bob") ≡ false
unfolding text_beq
apart = refl

lookup-allow_key_example :
    lookup (codes "user:bob") (allow_key tokens 7 (codes "ip:1.2.3.4") start).1.buckets ≡ (
      if is_past 7 start.last_gc
      then unless_idle 7 (lookup (codes "user:bob") start.buckets)
      else lookup (codes "user:bob") start.buckets)
lookup-allow_key_example =
    lookup-allow_key tokens 7 start (codes "ip:1.2.3.4") (codes "user:bob") start-IsTidy.one_each
      apart

-- The first request of a new caller goes on.
first_request : (middleware tokens 7 request start).0 ≡ true
unfolding middleware has_prefix is_privileged caller_key allow_key collect_idle limiter_of lookup
    text_beq
first_request = refl
