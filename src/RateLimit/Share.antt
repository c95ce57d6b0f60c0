-- ===== src/RateLimit/Share.antt =====
-- How many requests of one window the limiter of app/rate_limit.py lets a caller have.
use fraud_detection.Prelude.{
  ℕ, ◌+◌, ◌-◌, ◌≤◌, ◌≡◌, inl, inr, refl, ap, ◌∙◌, String, Bool, true, false, List, [], ◌∷◌, ltb,
  ◌&&◌, if◌then◌else◌, arith, Bool-cases,
}
use fraud_detection.RateLimit.{
  Counters, Limiter, Request, Enforced, passed, too_many_requests, window_of, retry_after,
  enforce_all,
}
use fraud_detection.RateLimit.Window.{IsLimiter}
use fraud_detection.RateLimit.Promise.{is_of, made, verdicts, AreOrdered, is_of-eq}
use fraud_detection.RateLimit.Budget.{enforce_all-verdicts}

module _ (limiter : Limiter) where
  abbrev is_passed : Enforced → Bool
  is_passed passed = true
  is_passed (too_many_requests seconds) = false

  -- how many requests of the window a caller got through
  abbrev pub passed_in : String → ℕ → List Request → List Enforced → ℕ
  passed_in digest window [] outcomes = 0
  passed_in digest window (request ∷ requests) [] = 0
  passed_in digest window (request ∷ requests) (outcome ∷ outcomes) =
      if is_of limiter digest window request && is_passed outcome
      then passed_in digest window requests outcomes + 1
      else passed_in digest window requests outcomes

  abbrev pub AreCounted : List Request → Type 0
  AreCounted [] = Unit
  AreCounted (request ∷ requests) = (request.redis_up ≡ true) × AreCounted requests

  passed_step :
      (of : Bool) (most : ℕ) (up : Bool) (seconds : ℕ) {rest own all : ℕ}
      → up ≡ true
      → (of ≡ true → own ≡ all)
      → rest ≤ most - (if up && of then all + 1 else all)
      → (if of && is_passed (if up && ltb most (own + 1) then too_many_requests seconds else passed)
          then rest + 1
          else rest)
        ≤ most - all
  passed_step of most false seconds up e h = absurd (cc)
  passed_step false most true seconds up e h = h
  passed_step true most true seconds {rest} {own} {all} up e h =
      elim (Bool-cases (ltb most (own + 1))) [
        | inl over ↦ rw over (omega arith)
        | inr under ↦ rw under (fits (e refl) under)
      ]
    where
      fits : own ≡ all → ltb most (own + 1) ≡ false → rest + 1 ≤ most - all
      fits same under = ground arith

  passed_in-verdicts :
      (digest : String) (window : ℕ) (earlier requests : List Request)
      → AreCounted requests
      → passed_in digest window requests (verdicts limiter earlier requests)
        ≤ limiter.max_requests - made limiter digest window earlier
  passed_in-verdicts digest window earlier [] up = omega arith
  passed_in-verdicts digest window earlier (request ∷ requests) (up, ups) =
      passed_step (is_of limiter digest window request) (limiter.max_requests) request.redis_up
        (retry_after limiter request.at) up
        (λ same.
          let eq = is_of-eq limiter digest window request same in
          ap (λ d. made limiter d (window_of limiter request.at) earlier) eq.0
          ∙ ap (λ w. made limiter digest w earlier) eq.1)
        (passed_in-verdicts digest window (request ∷ earlier) requests ups)

module _ (limiter : Limiter) (redis : Counters) where
  -- While Redis answers, no caller gets more than `max_requests` requests through in one window, however
  -- the requests of all callers interleave.
  pub passed_in-enforce_all :
      (is : IsLimiter limiter) (digest : String) (window : ℕ) (requests : List Request)
      (state : redis.State)
      → ((key : String) (now : ℕ) → redis.count key now state ≡ 0)
      → AreOrdered limiter 0 requests
      → AreCounted limiter requests
      → passed_in limiter digest window requests (enforce_all limiter redis requests state)
        ≤ limiter.max_requests
  passed_in-enforce_all is digest window requests state h o up =
      rw (enforce_all-verdicts limiter redis is requests state h o)
        (omega (arith, passed_in-verdicts limiter digest window [] requests up))
