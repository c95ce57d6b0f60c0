-- ===== src/RateLimit/Window.antt =====
-- The windows of app/rate_limit.py: their keys, and what Retry-After names.
use fraud_detection.Prelude.{
  ℕ, ◌+◌, ◌-◌, ◌*◌, ◌/◌, ◌≤◌, ◌<◌, ◌≡◌, refl, sym, ◌∙◌, max, String, arith,
}
use Prim.Native.String.{◌++◌ as append}
use Prim.Native.String.{count as text_length}
use text.Mathlib.TextLemmas.{append_inj, append_cancel_left}
use native.Mathlib.Nat.{
  mul-pos, mul-le-mul_right, div-mul-le_self, lt-div-mul-add, le-div_iff_mul-le, div-lt_iff_lt-mul,
}
use fraud_detection.RateLimit.{Limiter, window_ticks, window_of, bucket_key, retry_after}

-- the number of seconds that rounding up gives
abbrev ceil_div : ℕ → ℕ → ℕ
ceil_div ticks rate = (ticks + (rate - 1)) / rate

ceil_div-ge : (ticks rate : ℕ) → 0 < rate → ticks ≤ ceil_div ticks rate * rate
ceil_div-ge ticks rate h = omega (arith, lt-div-mul-add {a = ticks + (rate - 1)} {b = rate} h)

ceil_div-lt : (ticks rate : ℕ) → 0 < rate → ceil_div ticks rate * rate < ticks + rate
ceil_div-lt ticks rate h = omega (arith, div-mul-le_self (ticks + (rate - 1)) rate)

ceil_div-le :
    (ticks rate seconds : ℕ) → 0 < rate → ticks ≤ seconds * rate → ceil_div ticks rate ≤ seconds
ceil_div-le ticks rate seconds h k = le_of_lt-suc (
    (div-lt_iff_lt-mul {k = rate} {x = ticks + (rate - 1)} {y = seconds + 1} h).1
      (below (seconds * rate) refl))
  where
    le_of_lt-suc : ceil_div ticks rate < seconds + 1 → ceil_div ticks rate ≤ seconds
    le_of_lt-suc lt = omega arith

    below : (n : ℕ) → n ≡ seconds * rate → ticks + (rate - 1) < (seconds + 1) * rate
    below n e = omega arith

ceil_div-pos : (ticks rate : ℕ) → 0 < rate → 0 < ticks → 1 ≤ ceil_div ticks rate
ceil_div-pos ticks rate h k =
    (le-div_iff_mul-le {k = rate} {x = 1} {y = ticks + (rate - 1)} h).1 (omega arith)

-- What the settings are, for a limiter that was set up.
pub record IsLimiter (limiter : Limiter) : Type 0 where
  pub rate_pos : 0 < limiter.tick_rate
  pub window_pos : 0 < limiter.window_seconds
  -- digests are cut to 32 characters, and two numbers have different decimal texts
  pub digest_length : (subject : String) → text_length (limiter.digest subject) ≡ 32
  pub show_inj : (m n : ℕ) → limiter.show m ≡ limiter.show n → m ≡ n

module _ (limiter : Limiter) (is : IsLimiter limiter) where
  pub window_ticks-pos : 0 < window_ticks limiter
  window_ticks-pos = mul-pos is.window_pos is.rate_pos

  -- Two requests share a counter only in one window, with one digest.
  pub bucket_key_inj :
      (subject other : String) (window later : ℕ)
      → bucket_key limiter subject window ≡ bucket_key limiter other later
      → (limiter.digest subject ≡ limiter.digest other) × (window ≡ later)
  unfolding bucket_key
  bucket_key_inj subject other window later e =
      let parts =
        append_inj
          (append_cancel_left "fraud:ratelimit:"
            (append (limiter.digest subject) (append ":" (limiter.show window)))
            (append (limiter.digest other) (append ":" (limiter.show later))) e)
          (is.digest_length subject ∙ sym (is.digest_length other)) in
      (
        parts.0,
        is.show_inj window later
            (append_cancel_left ":" (limiter.show window) (limiter.show later) parts.1),
      )

  -- An instant is inside its window.
  pub window_of-bounds :
      (now : ℕ)
      → (window_of limiter now * window_ticks limiter ≤ now)
        × (now < window_of limiter now * window_ticks limiter + window_ticks limiter)
  unfolding window_of
  window_of-bounds now = (
    div-mul-le_self now (window_ticks limiter),
    lt-div-mul-add {a = now} {b = window_ticks limiter} window_ticks-pos,
  )

  -- the ticks that are left of the window
  abbrev pub remaining : ℕ → ℕ
  remaining now = (window_of limiter now + 1) * window_ticks limiter - now

  remaining-bounds :
      (now : ℕ)
      → (0 < remaining now)
        × (remaining now ≤ window_ticks limiter)
        × (now + remaining now ≡ (window_of limiter now + 1) * window_ticks limiter)
  remaining-bounds now = (
    omega (arith, window_of-bounds now),
    omega (arith, window_of-bounds now),
    omega (arith, window_of-bounds now),
  )

  -- the window of an instant, from its bounds
  pub window_of-eq :
      (now window : ℕ)
      → window * window_ticks limiter ≤ now
      → now < (window + 1) * window_ticks limiter
      → window_of limiter now ≡ window
  unfolding window_of
  window_of-eq now window low high =
      antisym
        ((div-lt_iff_lt-mul {k = window_ticks limiter} {x = now} {y = window + 1}
            window_ticks-pos).1
          high)
        ((le-div_iff_mul-le {k = window_ticks limiter} {x = window} {y = now} window_ticks-pos).1
          low)
    where
      antisym :
          now / window_ticks limiter < window + 1
          → window ≤ now / window_ticks limiter
          → now / window_ticks limiter ≡ window
      antisym lt le = omega arith

  retry_after-eq : (now : ℕ) → retry_after limiter now ≡ ceil_div (remaining now) limiter.tick_rate
  unfolding retry_after
  retry_after-eq now =
      max-one (ceil_div (remaining now) limiter.tick_rate)
        (ceil_div-pos (remaining now) limiter.tick_rate is.rate_pos (remaining-bounds now).0)
    where
      max-one : (n : ℕ) → 1 ≤ n → max 1 n ≡ n
      max-one n h = omega arith

  -- Retry-After is between one second and the length of a window, and a caller that waits so long is in
  -- the next window; a second earlier it is not there yet.
  pub retry_after-window_of :
      (now : ℕ)
      → (1 ≤ retry_after limiter now)
        × (retry_after limiter now ≤ limiter.window_seconds)
        × (window_of limiter (now + retry_after limiter now * limiter.tick_rate)
            ≡ window_of limiter now + 1)
        × ((earlier : ℕ)
            → now ≤ earlier
            → earlier + limiter.tick_rate ≤ now + retry_after limiter now * limiter.tick_rate
            → window_of limiter earlier ≡ window_of limiter now)
  retry_after-window_of now = rw (retry_after-eq now) (
    ceil_div-pos (remaining now) limiter.tick_rate is.rate_pos (remaining-bounds now).0,
    at_most,
    window_of-eq (now + ceil_div (remaining now) limiter.tick_rate * limiter.tick_rate)
        (window_of limiter now + 1) (omega (arith, remaining-bounds now, long_enough))
        (omega (arith, remaining-bounds now, mul-le-mul_right limiter.tick_rate at_most)),
    λ earlier le before.
        window_of-eq earlier (window_of limiter now) (omega (arith, window_of-bounds now))
          (omega (arith, remaining-bounds now, not_longer)),
  )
    where
      at_most : ceil_div (remaining now) limiter.tick_rate ≤ limiter.window_seconds
      at_most =
          ceil_div-le (remaining now) limiter.tick_rate limiter.window_seconds is.rate_pos
            (remaining-bounds now).1

      long_enough : remaining now ≤ ceil_div (remaining now) limiter.tick_rate * limiter.tick_rate
      long_enough = ceil_div-ge (remaining now) limiter.tick_rate is.rate_pos

      not_longer :
          ceil_div (remaining now) limiter.tick_rate * limiter.tick_rate
          < remaining now + limiter.tick_rate
      not_longer = ceil_div-lt (remaining now) limiter.tick_rate is.rate_pos
