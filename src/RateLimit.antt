-- ===== src/RateLimit.antt =====
-- app/rate_limit.py: the fixed-window counter of each caller, which all replicas share through Redis.
-- Redis is outside the repository: `Counters` has its INCR with EXPIRE as an operation and their documented
-- behaviour as laws. An instant is a number of ticks, `tick_rate` of them to a second.
pub mod Window
pub mod Promise
pub mod Budget
pub mod Share
pub mod Examples
use fraud_detection.Prelude.{
  ℕ, ◌+◌, ◌-◌, ◌*◌, ◌/◌, ◌≤◌, ◌<◌, ◌≡◌, ◌≢◌, max, String, Bool, List, [], ◌∷◌, ltb, if◌then◌else◌,
}
use Prim.Native.String.{◌++◌ as append}

-- `count key now state` is what GET of the key gives at that instant, with 0 where there is no key.
-- `incr_expire key now expiry` is the transaction of INCR and EXPIRE, with the instant at which the key goes.
pub record Counters : Type 1 where
  pub State : Type 0
  pub count : String → ℕ → State → ℕ
  pub incr_expire : String → ℕ → ℕ → State → ℕ × State
  pub incr_count :
      (key : String) (now expiry : ℕ) (state : State)
      → (incr_expire key now expiry state).0 ≡ count key now state + 1
  pub count_kept :
      (key : String) (now expiry later : ℕ) (state : State)
      → now ≤ later
      → later < expiry
      → count key later (incr_expire key now expiry state).1 ≡ (incr_expire key now expiry state).0
  pub count_other :
      (key other : String) (now expiry later : ℕ) (state : State)
      → key ≢ other
      → count other later (incr_expire key now expiry state).1 ≡ count other later state

-- `RateLimiter`: its settings, the digest of a subject and the decimal text of a window's number
pub record Limiter : Type 0 where
  pub max_requests : ℕ
  pub window_seconds : ℕ
  pub tick_rate : ℕ
  pub digest : String → String
  pub show : ℕ → String

-- One call of `enforce`: who calls, what the clock shows, and whether Redis answers.
pub record Request : Type 0 where
  pub subject : String
  pub at : ℕ
  pub redis_up : Bool

-- `enforce` returns, or raises 429 with the seconds of Retry-After.
pub data Enforced : Type 0 where
  passed : Enforced
  too_many_requests : ℕ → Enforced

module _ (limiter : Limiter) where
  abbrev pub window_ticks : ℕ
  window_ticks = limiter.window_seconds * limiter.tick_rate

  -- `int(now // self._window_seconds)`
  unfoldable pub window_of : ℕ → ℕ
  window_of now = now / window_ticks

  -- `_bucket_key`
  unfoldable pub bucket_key : String → ℕ → String
  bucket_key subject window =
      append "fraud:ratelimit:" (append (limiter.digest subject) (append ":" (limiter.show window)))

  -- `max(1, math.ceil((window + 1) * self._window_seconds - now))`
  unfoldable pub retry_after : ℕ → ℕ
  unfolding window_of
  retry_after now =
      max 1
        (((window_of now + 1) * window_ticks - now + (limiter.tick_rate - 1)) / limiter.tick_rate)

  -- `enforce`, with the count that Redis gave
  unfoldable pub judge : ℕ → ℕ → Enforced
  judge now count =
      if ltb limiter.max_requests count then too_many_requests (retry_after now) else passed

module _ (limiter : Limiter) (redis : Counters) where
  -- `enforce`
  unfoldable pub enforce : Request → redis.State → Enforced × redis.State
  unfolding window_of judge
  enforce request state =
      let counted =
        redis.incr_expire (bucket_key limiter request.subject (window_of limiter request.at))
          request.at (request.at + (limiter.window_seconds + 1) * limiter.tick_rate) state in
      if request.redis_up then (judge limiter request.at counted.0, counted.1) else (passed, state)

  -- the requests of all callers, in the order in which Redis takes them
  unfoldable pub enforce_all : List Request → redis.State → List Enforced
  unfolding enforce
  enforce_all [] state = []
  enforce_all (request ∷ requests) state =
      (enforce request state).0 ∷ enforce_all requests (enforce request state).1
