-- ===== src/Auth/RateLimit/Buckets.antt =====
-- The buckets of auth/ratelimit.go over time: whom a request can affect, and how long a bucket stays.
use go_mathsearch.Base.{
  ℕ, ◌+◌, ◌*◌, ◌≤◌, Bool, true, false, not, ◌&&◌, ◌||◌, List, [], ◌∷◌, map, Option, none, some,
  select, ◌==◌, ==_comm, if◌then◌else◌, Bool-cases, contains, IsDistinct, All, ◌≡◌, ◌↔◌, refl, sym,
  ap, ◌∙◌, inl, inr, arith,
}
use go_mathsearch.Base.Text.{Text, text_eq, text_beq, text_beq_iff, lookup, put, lookup-put}
use go_mathsearch.Auth.RateLimit.{
  Rate, Bucket, RateLimiter, Request, idle_time, is_past, has_prefix, collect_idle, caller_key,
  is_privileged, limiter_of, allow_key, middleware,
}

module _ {Limiter : Type 0} where
  -- A bucket that a collection at this time leaves.
  abbrev pub unless_idle : ℕ → Option (Bucket Limiter) → Option (Bucket Limiter)
  unless_idle now none = none
  unless_idle now (some b) = if is_past now b.seen then none else some b

  abbrev pub names : List (Text × Bucket Limiter) → List Text
  names = map (λ p. p.0)

  -- Each caller has one bucket, and none was idle at the last collection.
  pub record IsTidy (rl : RateLimiter Limiter) : Type 0 where
    pub one_each : IsDistinct (names rl.buckets)
    pub recent : All (λ p. rl.last_gc ≤ p.1.seen + idle_time) rl.buckets

  lookup_absent :
      (k : Text) (m : List (Text × Bucket Limiter))
      → contains k (names m) ≡ false
      → lookup k m ≡ none
  unfolding lookup contains
  lookup_absent k [] h = refl
  lookup_absent k ((j, b) ∷ m) h = ground (arith, lookup_absent k m)

  names-select :
      (p : Text × Bucket Limiter → Bool) (k : Text) (m : List (Text × Bucket Limiter))
      → contains k (names m) ≡ false
      → contains k (names (select p m)) ≡ false
  unfolding select contains
  names-select p k [] h = refl
  names-select p k (q ∷ m) h = ground (arith, names-select p k m)

  lookup-select :
      (now : ℕ) (k : Text) (m : List (Text × Bucket Limiter))
      → IsDistinct (names m)
      → lookup k (select (λ p. not (is_past now p.1.seen)) m) ≡ unless_idle now (lookup k m)
  unfolding lookup select
  lookup-select now k [] d = refl
  lookup-select now k ((j, b) ∷ m) d =
      let rest = lookup-select now k m d.1 in
      let gone : text_beq j k ≡ true
          → lookup k (select (λ p. not (is_past now p.1.seen)) m) ≡ none =
        λ h. lookup_absent k _ (
          names-select _ k m
            (ap (λ t. contains t (names m)) (sym ((text_beq_iff j k).0 h)) ∙ d.0)) in
      ground (arith, rest, gone)

  put-names :
      (i k : Text) (b : Bucket Limiter) (m : List (Text × Bucket Limiter))
      → contains i (names (put k b m)) ≡ (contains i (names m) || k == i)
  unfolding put contains
  put-names i k b [] = ground arith
  put-names i k b ((j, c) ∷ m) =
      ground (arith, put-names i k b m, text_beq_iff j k, text_beq_iff j i, text_beq_iff k i)

  put-IsDistinct :
      (k : Text) (b : Bucket Limiter) (m : List (Text × Bucket Limiter))
      → IsDistinct (names m)
      → IsDistinct (names (put k b m))
  unfolding put contains
  put-IsDistinct k b [] d = (refl, tt)
  put-IsDistinct k b ((j, c) ∷ m) d = elim (Bool-cases (text_beq j k)) [
    | inl same ↦ rw same d
    | inr other ↦
        rw other
          (ground (arith, put-names j k b m, d.0, ==_comm j k, other), put-IsDistinct k b m d.1)
  ]

  put-All :
      (P : Text × Bucket Limiter → Type 0) (k : Text) (b : Bucket Limiter)
      (m : List (Text × Bucket Limiter))
      → ((j : Text) → P (j, b))
      → All P m
      → All P (put k b m)
  unfolding put
  put-All P k b [] p a = (p k, tt)
  put-All P k b ((j, c) ∷ m) p a = elim (Bool-cases (text_beq j k)) [
    | inl same ↦ rw same (p j, a.1)
    | inr other ↦ rw other (a.0, put-All P k b m p a.1)
  ]

  select-recent :
      (now : ℕ) (m : List (Text × Bucket Limiter))
      → All (λ p. now ≤ p.1.seen + idle_time) (select (λ p. not (is_past now p.1.seen)) m)
  unfolding select
  select-recent now [] = tt
  select-recent now (p ∷ m) = elim (Bool-cases (is_past now p.1.seen)) [
    | inl idle ↦ rw idle (select-recent now m)
    | inr busy ↦ rw busy (ground (arith, busy), select-recent now m)
  ]

  names-select-IsDistinct :
      (p : Text × Bucket Limiter → Bool) (m : List (Text × Bucket Limiter))
      → IsDistinct (names m)
      → IsDistinct (names (select p m))
  unfolding select
  names-select-IsDistinct p [] d = tt
  names-select-IsDistinct p (q ∷ m) d = elim (Bool-cases (p q)) [
    | inl keep ↦ rw keep (names-select p q.0 m d.0, names-select-IsDistinct p m d.1)
    | inr drop ↦ rw drop (names-select-IsDistinct p m d.1)
  ]

  collect_idle-IsTidy :
      (now : ℕ) (rl : RateLimiter Limiter) → IsTidy rl → IsTidy (collect_idle now rl)
  unfolding collect_idle
  collect_idle-IsTidy now rl t = elim (Bool-cases (is_past now rl.last_gc)) [
    | inl due ↦ rw due (record {
      one_each = names-select-IsDistinct _ rl.buckets t.one_each;
      recent = select-recent now rl.buckets;
    })
    | inr early ↦ rw early t
  ]

  collect_idle-exempt :
      (now : ℕ) (rl : RateLimiter Limiter) → (collect_idle now rl).exempt ≡ rl.exempt
  unfolding collect_idle
  collect_idle-exempt now rl = elim (Bool-cases (is_past now rl.last_gc)) [
    | inl due ↦ rw due
    | inr early ↦ rw early
  ]

  collect_idle-last_gc :
      (now : ℕ) (rl : RateLimiter Limiter)
      → rl.last_gc ≤ now
      → ((collect_idle now rl).last_gc ≤ now) × (now ≤ (collect_idle now rl).last_gc + idle_time)
  unfolding collect_idle
  collect_idle-last_gc now rl h = elim (Bool-cases (is_past now rl.last_gc)) [
    | inl due ↦ rw due (omega arith)
    | inr early ↦ rw early (h, ground (arith, early))
  ]

  lookup-collect_idle :
      (now : ℕ) (k : Text) (rl : RateLimiter Limiter)
      → IsDistinct (names rl.buckets)
      → lookup k (collect_idle now rl).buckets ≡ (
          if is_past now rl.last_gc
          then unless_idle now (lookup k rl.buckets)
          else lookup k rl.buckets)
  unfolding collect_idle
  lookup-collect_idle now k rl d = elim (Bool-cases (is_past now rl.last_gc)) [
    | inl due ↦ rw due (lookup-select now k rl.buckets d)
    | inr early ↦ rw early
  ]

  All-weaken :
      (a b : ℕ) (m : List (Text × Bucket Limiter))
      → b ≤ a + idle_time
      → All (λ p. a ≤ p.1.seen + idle_time) m
      → All (λ p. b ≤ p.1.seen + 2 * idle_time) m
  All-weaken a b [] h r = tt
  All-weaken a b (p ∷ m) h r = (omega (arith, h, r.0), All-weaken a b m h r.1)

module _ (R : Rate) (now : ℕ) (rl : RateLimiter R.Limiter) where
  allow_key-IsTidy : (key : Text) → IsTidy rl → rl.last_gc ≤ now → IsTidy (allow_key R now key rl).1
  unfolding allow_key
  allow_key-IsTidy key t h =
      let kept = collect_idle-IsTidy now rl t in
      let (past, soon) = collect_idle-last_gc now rl h in
      record {
        one_each = put-IsDistinct key _ (collect_idle now rl).buckets kept.one_each;
        recent =
            put-All _ key _ (collect_idle now rl).buckets (λ j. omega (arith, past)) kept.recent;
      }

  -- A request leaves the limiter as it was, or is counted.
  middleware-cases :
      (P : RateLimiter R.Limiter → Type 0) (r : Request)
      → P rl
      → P (allow_key R now (caller_key r) rl).1
      → P (middleware R now r rl).1
  unfolding middleware
  middleware-cases P r same counted =
      elim (Bool-cases (not (rl.path_pref == []) && not (has_prefix r.path rl.path_pref))) [
        | inl outside ↦ rw outside same
        | inr under ↦ rw under (elim (Bool-cases (is_privileged r && rl.exempt)) [
          | inl free ↦ rw free same
          | inr limited ↦ rw limited counted
        ])
      ]

  pub middleware-exempt : (r : Request) → (middleware R now r rl).1.exempt ≡ rl.exempt
  unfolding allow_key
  middleware-exempt r =
      middleware-cases (λ x. x.exempt ≡ rl.exempt) r refl (collect_idle-exempt now rl)

  pub middleware-last_gc :
      (r : Request) → rl.last_gc ≤ now → (middleware R now r rl).1.last_gc ≤ now
  unfolding allow_key
  middleware-last_gc r h =
      middleware-cases (λ x. x.last_gc ≤ now) r h (collect_idle-last_gc now rl h).0

  -- On a clock that does not go back, a request leaves one bucket for each caller, and none that was idle at
  -- the last collection, if there was one for each and none so idle before.
  pub middleware-IsTidy :
      (r : Request) → IsTidy rl → rl.last_gc ≤ now → IsTidy (middleware R now r rl).1
  middleware-IsTidy r t h = middleware-cases IsTidy r t (allow_key-IsTidy (caller_key r) t h)

  -- On a clock that does not go back, after a request that is counted every bucket that is left has been
  -- seen within twice ten minutes, if none was idle at the last collection before.
  pub allow_key_bounds :
      (key : Text)
      → IsTidy rl
      → rl.last_gc ≤ now
      → All (λ p. now ≤ p.1.seen + 2 * idle_time) (allow_key R now key rl).1.buckets
  unfolding allow_key
  allow_key_bounds key t h =
      let tidy = allow_key-IsTidy key t h in
      let (past, soon) = collect_idle-last_gc now rl h in
      All-weaken (collect_idle now rl).last_gc now _ soon tidy.recent

  -- Where each caller has one bucket, counting a request of one leaves the bucket of another as it was,
  -- unless that is collected for being idle.
  pub lookup-allow_key :
      (key other : Text)
      → IsDistinct (names rl.buckets)
      → (key == other) ≡ false
      → lookup other (allow_key R now key rl).1.buckets ≡ (
          if is_past now rl.last_gc
          then unless_idle now (lookup other rl.buckets)
          else lookup other rl.buckets)
  unfolding allow_key
  lookup-allow_key key other d ne =
      lookup-put other key _ (collect_idle now rl).buckets
      ∙ rw ne (lookup-collect_idle now other rl d)

  -- A request is answered with status 429 exactly if its path is under the prefix, its caller is not
  -- privileged with the exemption on, and the limiter of its key refuses it.
  pub middleware-false_iff :
      (r : Request)
      → ((middleware R now r rl).0 ≡ false) ↔ (
          ((rl.path_pref == [] || has_prefix r.path rl.path_pref) ≡ true)
          × ((is_privileged r && rl.exempt) ≡ false)
          × ((R.allow now (limiter_of R (caller_key r) (collect_idle now rl))).0 ≡ false))
  unfolding middleware allow_key
  middleware-false_iff r = ground arith
