-- ===== src/RateLimit/Budget.antt =====
-- The counters of app/rate_limit.py keep the promise: a caller's requests of one window against its budget.
use fraud_detection.Prelude.{
  ℕ, ◌+◌, ◌*◌, ◌≤◌, ◌<◌, ◌≡◌, inl, inr, refl, sym, ap, ◌∙◌, String, Bool, true, false, List, [],
  ◌∷◌, ltb, ◌&&◌, if◌then◌else◌, arith, Bool-cases, if-true, if-false,
}
use mathlib.Core.Bool.{true≢false}
use fraud_detection.RateLimit.{
  Counters, Limiter, Request, Enforced, passed, too_many_requests, window_ticks, window_of,
  bucket_key, judge, retry_after, enforce, enforce_all,
}
use fraud_detection.RateLimit.Window.{IsLimiter, bucket_key_inj, window_of-bounds}
use fraud_detection.RateLimit.Promise.{
  is_of, made, verdict, verdicts, AreOrdered, is_of-eq, is_of_self,
}

module _ (limiter : Limiter) (redis : Counters) (is : IsLimiter limiter) where
  -- From an instant on, the counters are the numbers of requests made.
  Agrees : ℕ → List Request → redis.State → Type 0
  Agrees now earlier state =
      (subject : String) (later : ℕ)
      → now ≤ later
      → redis.count (bucket_key limiter subject (window_of limiter later)) later state
        ≡ made limiter (limiter.digest subject) (window_of limiter later) earlier

  enforce-verdict :
      (now : ℕ) (earlier : List Request) (request : Request) (state : redis.State)
      → now ≤ request.at
      → Agrees now earlier state
      → (enforce limiter redis request state).0 ≡ verdict limiter earlier request
  unfolding enforce judge Agrees
  enforce-verdict now earlier request state le h =
      counted_verdict request.redis_up
        (redis.incr_expire (bucket_key limiter request.subject (window_of limiter request.at))
          request.at (request.at + (limiter.window_seconds + 1) * limiter.tick_rate) state)
        (redis.incr_count (bucket_key limiter request.subject (window_of limiter request.at))
            request.at (request.at + (limiter.window_seconds + 1) * limiter.tick_rate) state
          ∙ ap (λ n. n + 1) (h request.subject request.at le))
    where
      counted_verdict :
          (up : Bool) (counted : ℕ × redis.State) {n : ℕ}
          → counted.0 ≡ n
          → (if◌then◌else◌ {A = Enforced × redis.State} up
              (judge limiter request.at counted.0, counted.1)
              (passed, state)).0
            ≡ (if up && ltb limiter.max_requests n
                then too_many_requests (retry_after limiter request.at)
                else passed)
      counted_verdict true counted e = ap (judge limiter request.at) e
      counted_verdict false counted e = refl

  -- one bucket, one key
  bucket_key-same :
      (subject other : String) (window later : ℕ)
      → limiter.digest subject ≡ limiter.digest other
      → window ≡ later
      → bucket_key limiter subject window ≡ bucket_key limiter other later
  unfolding bucket_key
  bucket_key-same subject other window later e k = rw (e, k) refl

  incr_expire-made :
      (earlier : List Request) (request : Request) (state : redis.State) (subject : String)
      (later : ℕ)
      → request.at ≤ later
      → Agrees request.at earlier state
      → redis.count
          (bucket_key limiter subject (window_of limiter later))
          later
          (redis.incr_expire
            (bucket_key limiter request.subject (window_of limiter request.at))
            request.at
            (request.at + (limiter.window_seconds + 1) * limiter.tick_rate)
            state).1
        ≡ (if is_of limiter (limiter.digest subject) (window_of limiter later) request
            then made limiter (limiter.digest subject) (window_of limiter later) earlier + 1
            else made limiter (limiter.digest subject) (window_of limiter later) earlier)
  unfolding Agrees
  incr_expire-made earlier request state subject later after h =
      elim (Bool-cases (is_of limiter (limiter.digest subject) (window_of limiter later) request)) [
        | inl same ↦
            let eq =
              is_of-eq limiter (limiter.digest subject) (window_of limiter later) request same in
            ap (λ k. redis.count k later counted.1)
              (bucket_key-same subject request.subject (window_of limiter later)
                (window_of limiter request.at) (sym eq.0) (sym eq.1))
            ∙ redis.count_kept key request.at expiry later state after (in_time eq.1)
            ∙ redis.incr_count key request.at expiry state
            ∙ ap (λ n. n + 1) (h request.subject request.at (omega arith))
            ∙ ap (λ d. made limiter d (window_of limiter request.at) earlier + 1) eq.0
            ∙ ap (λ w. made limiter (limiter.digest subject) w earlier + 1) eq.1
            ∙ sym (
                if-true
                  (made limiter (limiter.digest subject) (window_of limiter later) earlier + 1)
                  (made limiter (limiter.digest subject) (window_of limiter later) earlier) same)
        | inr other ↦
            redis.count_other key (bucket_key limiter subject (window_of limiter later)) request.at
              expiry later state
              (λ e.
                let eq =
                  bucket_key_inj limiter is request.subject subject (window_of limiter request.at)
                    (window_of limiter later) e in
                absurd (not_same eq.0 eq.1 other))
            ∙ h subject later after
            ∙ sym (
                if-false
                  (made limiter (limiter.digest subject) (window_of limiter later) earlier + 1)
                  (made limiter (limiter.digest subject) (window_of limiter later) earlier) other)
      ]
    where
      key : String
      key = bucket_key limiter request.subject (window_of limiter request.at)

      expiry : ℕ
      expiry = request.at + (limiter.window_seconds + 1) * limiter.tick_rate

      counted : ℕ × redis.State
      counted = redis.incr_expire key request.at expiry state

      in_time : window_of limiter request.at ≡ window_of limiter later → later < expiry
      in_time e = omega (
        arith,
        window_of-bounds limiter is later,
        window_of-bounds limiter is request.at,
        ap (λ w. w * window_ticks limiter) e,
        is.rate_pos,
      )

      not_same :
          limiter.digest request.subject ≡ limiter.digest subject
          → window_of limiter request.at ≡ window_of limiter later
          → is_of limiter (limiter.digest subject) (window_of limiter later) request ≡ false
          → ⊥
      not_same e k other = true≢false (sym (rw (sym e, sym k) (is_of_self limiter request)) ∙ other)

  enforce-Agrees :
      (now : ℕ) (earlier : List Request) (request : Request) (state : redis.State)
      → now ≤ request.at
      → Agrees now earlier state
      → Agrees request.at (request ∷ earlier) (enforce limiter redis request state).1
  unfolding enforce Agrees
  enforce-Agrees now earlier request state le h subject later after =
      counted_or_not request.redis_up (judge limiter request.at counted.0) counted.1
        (is_of limiter (limiter.digest subject) (window_of limiter later) request)
        (incr_expire-made earlier request state subject later after (λ s l k. h s l (omega arith)))
    where
      counted : ℕ × redis.State
      counted =
          redis.incr_expire (bucket_key limiter request.subject (window_of limiter request.at))
            request.at (request.at + (limiter.window_seconds + 1) * limiter.tick_rate) state

      counted_or_not :
          (up : Bool) (outcome : Enforced) (counted_state : redis.State) (b : Bool)
          → redis.count (bucket_key limiter subject (window_of limiter later)) later counted_state
            ≡ (if b
                then made limiter (limiter.digest subject) (window_of limiter later) earlier + 1
                else made limiter (limiter.digest subject) (window_of limiter later) earlier)
          → redis.count
              (bucket_key limiter subject (window_of limiter later))
              later
              (if◌then◌else◌ {A = Enforced × redis.State} up
                (outcome, counted_state)
                (passed, state)).1
            ≡ (if up && b
                then made limiter (limiter.digest subject) (window_of limiter later) earlier + 1
                else made limiter (limiter.digest subject) (window_of limiter later) earlier)
      counted_or_not true outcome counted_state b e = e
      counted_or_not false outcome counted_state b e = h subject later (omega arith)

  serve-verdicts :
      (now : ℕ) (earlier requests : List Request) (state : redis.State)
      → AreOrdered limiter now requests
      → Agrees now earlier state
      → enforce_all limiter redis requests state ≡ verdicts limiter earlier requests
  unfolding enforce_all
  serve-verdicts now earlier [] state o h = refl
  serve-verdicts now earlier (request ∷ requests) state o h =
      rw
        (
          enforce-verdict now earlier request state o.0 h,
          serve-verdicts request.at (request ∷ earlier) requests
              (enforce limiter redis request state).1 o.1
              (enforce-Agrees now earlier request state o.0 h),
        )
        refl

  pub enforce_all-verdicts :
      (requests : List Request) (state : redis.State)
      → ((key : String) (now : ℕ) → redis.count key now state ≡ 0)
      → AreOrdered limiter 0 requests
      → enforce_all limiter redis requests state ≡ verdicts limiter [] requests
  unfolding Agrees
  enforce_all-verdicts requests state h o =
      serve-verdicts 0 [] requests state o
        (λ subject later le. h (bucket_key limiter subject (window_of limiter later)) later)
