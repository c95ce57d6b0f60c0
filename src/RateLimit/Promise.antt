-- ===== src/RateLimit/Promise.antt =====
-- What the limiter of app/rate_limit.py promises, as a function of the requests alone.
use fraud_detection.Prelude.{
  ℕ, ◌+◌, ◌≤◌, ◌≡◌, refl, String, Bool, true, List, [], ◌∷◌, ltb, ◌==◌, ==_iff, ◌&&◌, if◌then◌else◌,
  str_eq, str_eq_iff, and-true, and-intro,
}
use text.Mathlib.TextPositions.{eq_refl as str_eq_refl}
use fraud_detection.RateLimit.{
  Limiter, Request, Enforced, passed, too_many_requests, window_of, retry_after,
}

module _ (limiter : Limiter) where
  -- the request is in the window, by a caller with that digest
  abbrev pub is_of : String → ℕ → Request → Bool
  is_of digest window request =
      str_eq (limiter.digest request.subject) digest && (window_of limiter request.at == window)

  -- how many of the requests a caller made in the window, as far as Redis was there
  abbrev pub made : String → ℕ → List Request → ℕ
  made digest window [] = 0
  made digest window (request ∷ requests) =
      if request.redis_up && is_of digest window request
      then made digest window requests + 1
      else made digest window requests

  -- The promise: a request is refused when its caller made `max_requests` or more before it in its window.
  abbrev pub verdict : List Request → Request → Enforced
  verdict earlier request =
      if request.redis_up
        && ltb limiter.max_requests
            (made (limiter.digest request.subject) (window_of limiter request.at) earlier + 1)
      then too_many_requests (retry_after limiter request.at)
      else passed

  abbrev pub verdicts : List Request → List Request → List Enforced
  verdicts earlier [] = []
  verdicts earlier (request ∷ requests) =
      verdict earlier request ∷ verdicts (request ∷ earlier) requests

  -- The clock does not go back.
  abbrev pub AreOrdered : ℕ → List Request → Type 0
  AreOrdered now [] = Unit
  AreOrdered now (request ∷ requests) = (now ≤ request.at) × AreOrdered request.at requests

  -- two requests of one bucket
  pub is_of-eq :
      (digest : String) (window : ℕ) (request : Request)
      → is_of digest window request ≡ true
      → (limiter.digest request.subject ≡ digest) × (window_of limiter request.at ≡ window)
  is_of-eq digest window request h =
      let both =
        and-true (str_eq (limiter.digest request.subject) digest)
          (window_of limiter request.at == window) h in
      (
        (str_eq_iff (limiter.digest request.subject) digest).0 both.0,
        (==_iff (window_of limiter request.at) window).0 both.1,
      )

  pub is_of_self :
      (request : Request)
      → is_of (limiter.digest request.subject) (window_of limiter request.at) request ≡ true
  is_of_self request =
      and-intro (str_eq_refl (limiter.digest request.subject))
        ((==_iff (window_of limiter request.at) (window_of limiter request.at)).1 refl)
