-- ===== src/Worker/Retries.antt =====
-- How long `_handle` (app/worker.py) retries: an outage of a dependency, and a poison message.
use fraud_detection.Prelude.{
  ℕ, suc, ◌+◌, ◌-◌, ◌*◌, ◌^◌, ◌≤◌, ◌<◌, ◌≡◌, refl, ap, true, false, Option, none, some, List, [],
  ◌∷◌, ◌∙◌, ◌++◌, leb, arith, length, if◌then◌else◌, Bool-cases, inl, inr,
}
use Prim.Native.Nat.{min}
use native.Mathlib.Nat.{mul-le-mul_left}
use native.Mathlib.Numerals.{add-one}
use native.Mathlib.Decide.{dec_le}
use fraud_detection.Prelude.Result.{ok, err}
use fraud_detection.Errors.{FailureClass, transient, unexpected, Raised, classify_failure}
use fraud_detection.Database.Rows.{RecordOutcome}
use fraud_detection.Worker.Handle.{
  WorkerSettings, Message, DeadLetter, max_exponent, retry_delay, Pass, Progress, fresh, done,
  dead_lettered, overflow_error, Next, return, continue, letter_for, back_off, gives_up, on_failure,
  run_pass, handle,
}

delay_bounds :
    (jitter raw maximum delay : ℕ)
    → 500 ≤ jitter
    → jitter ≤ 1000
    → some (min maximum raw * jitter) ≡ some delay
    → (500 * min maximum raw ≤ delay) × (delay ≤ 1000 * maximum)
delay_bounds jitter raw maximum delay low high e =
    let same : min maximum raw * jitter ≡ delay = cc in
    (
      omega (arith, mul-le-mul_left (min maximum raw) low),
      omega (arith, mul-le-mul_left (min maximum raw) high),
    )

none-some : (delay : ℕ) → ¬ (◌≡◌ {A = Option ℕ} none (some delay))
none-some delay e = cc

-- The delay before a retry is between half of the capped delay and all of it, so never above the
-- configured maximum: for every jitter of 500 to 1000 thousandths.
pub retry_delay-bounds :
    (jitter attempt initial maximum delay : ℕ)
    → 500 ≤ jitter
    → jitter ≤ 1000
    → retry_delay jitter attempt initial maximum ≡ some delay
    → (500 * min maximum (initial * 2 ^ (attempt - 1)) ≤ delay) × (delay ≤ 1000 * maximum)
unfolding retry_delay
retry_delay-bounds jitter attempt initial maximum delay low high e =
    elim (Bool-cases (leb (attempt - 1) max_exponent)) [
      | inl fits ↦
          delay_bounds jitter (initial * 2 ^ (attempt - 1)) maximum delay low high (rw fits at e)
      | inr overflows ↦ absurd (none-some delay (rw overflows at e))
    ]

-- A pass in which the processing fails.
abbrev pub failing : Raised × ℕ → Pass
failing (e, jitter) = record {
  stopping = false;
  processed = err e;
  published = err e;
  jitter = jitter;
}

abbrev pub outage : List (Raised × ℕ) → List Pass
outage [] = []
outage (failure ∷ failures) = failing failure ∷ outage failures

abbrev pub succeeding : RecordOutcome → Pass
succeeding outcome = record {
  stopping = false;
  processed = ok outcome;
  published = ok tt;
  jitter = 1000;
}

abbrev pub AllOf : FailureClass → List (Raised × ℕ) → Type 0
AllOf c [] = Unit
AllOf c ((e, jitter) ∷ failures) = (classify_failure e ≡ c) × AllOf c failures

module _ (settings : WorkerSettings) (message : Message) where
  abbrev after_failures : ℕ → ℕ → Progress
  after_failures failures attempt = record {
    pending_letter = none;
    unexpected_failures = failures;
    attempt = attempt;
  }

  retry_delay-early :
      (jitter attempt initial maximum : ℕ)
      → attempt ≤ 1024
      → (delay : ℕ) × (retry_delay jitter attempt initial maximum ≡ some delay)
  unfolding retry_delay
  retry_delay-early jitter attempt initial maximum h =
      let small : leb (attempt - 1) max_exponent ≡ true = ground arith in
      (min maximum (initial * 2 ^ (attempt - 1)) * jitter, rw small refl)

  retry_delay-late :
      (jitter attempt initial maximum : ℕ)
      → 1024 < attempt
      → retry_delay jitter attempt initial maximum ≡ none
  unfolding retry_delay
  retry_delay-late jitter attempt initial maximum h =
      let large : leb (attempt - 1) max_exponent ≡ false = ground arith in rw large refl

  backed_off :
      (jitter : ℕ) (p : Progress) (o : Option ℕ)
      → retry_delay jitter p.attempt settings.retry_initial_backoff settings.retry_max_backoff ≡ o
      → back_off settings message jitter p
        ≡ elim o [ none ↦ return overflow_error | some delay ↦ continue p ]
  unfolding back_off
  backed_off jitter p o e =
      ap (λ o. elim o [ none ↦ return overflow_error | some delay ↦ continue p ]) e

  back_off-early :
      (jitter failures attempt : ℕ)
      → attempt ≤ 1024
      → back_off settings message jitter (after_failures failures attempt)
        ≡ continue (after_failures failures attempt)
  back_off-early jitter failures attempt h =
      let (delay, e) =
        retry_delay-early jitter attempt settings.retry_initial_backoff settings.retry_max_backoff
          h in
      backed_off jitter (after_failures failures attempt) (some delay) e

  back_off-late :
      (jitter failures attempt : ℕ)
      → 1024 < attempt
      → back_off settings message jitter (after_failures failures attempt) ≡ return overflow_error
  back_off-late jitter failures attempt h =
      backed_off jitter (after_failures failures attempt) none (
        retry_delay-late jitter attempt settings.retry_initial_backoff settings.retry_max_backoff h)

  handle-next :
      (pass : Pass) (passes : List Pass) (p : Progress) (next : Next)
      → run_pass settings message pass p ≡ next
      → handle settings message (pass ∷ passes) p
        ≡ elim next [ return result ↦ result | continue q ↦ handle settings message passes q ]
  unfolding handle
  handle-next pass passes p next e =
      ap (λ n. elim n [ return result ↦ result | continue q ↦ handle settings message passes q ]) e

  run_pass-transient :
      (failure : Raised × ℕ) (failures attempt : ℕ)
      → classify_failure failure.0 ≡ transient
      → run_pass settings message (failing failure) (after_failures failures attempt)
        ≡ back_off settings message failure.1 (after_failures failures (suc attempt))
  unfolding run_pass on_failure gives_up
  run_pass-transient (e, jitter) failures attempt h = rw h refl

  handle-early :
      (failures : List (Raised × ℕ)) (attempt : ℕ) (rest : List Pass)
      → AllOf transient failures
      → attempt + length failures ≤ 1024
      → handle settings message (outage failures ++ rest) (after_failures 0 attempt)
        ≡ handle settings message rest (after_failures 0 (attempt + length failures))
  unfolding handle
  handle-early [] attempt rest h few =
      ap (λ n. handle settings message rest (after_failures 0 n)) (omega arith)
  handle-early ((e, jitter) ∷ failures) attempt rest (h, hs) few =
      handle-next (failing (e, jitter)) (outage failures ++ rest) (after_failures 0 attempt)
        (continue (after_failures 0 (suc attempt)))
        (run_pass-transient (e, jitter) 0 attempt h
          ∙ back_off-early jitter 0 (suc attempt) (omega arith))
      ∙ (handle-early failures (suc attempt) rest hs (omega arith)
          ∙ ap (λ n. handle settings message rest (after_failures 0 n)) (omega arith))

  handle-late :
      (failures : List (Raised × ℕ)) (attempt : ℕ) (rest : List Pass)
      → AllOf transient failures
      → attempt ≤ 1024
      → 1024 < attempt + length failures
      → handle settings message (outage failures ++ rest) (after_failures 0 attempt)
        ≡ overflow_error
  unfolding handle
  handle-late [] attempt rest h low high = absurd (omega arith)
  handle-late ((e, jitter) ∷ failures) attempt rest (h, hs) low high =
      elim (dec_le (suc attempt) 1024) [
        | yes early ↦
            handle-next (failing (e, jitter)) (outage failures ++ rest) (after_failures 0 attempt)
              (continue (after_failures 0 (suc attempt)))
              (run_pass-transient (e, jitter) 0 attempt h
                ∙ back_off-early jitter 0 (suc attempt) early)
            ∙ handle-late failures (suc attempt) rest hs early (omega arith)
        | no late ↦
            handle-next (failing (e, jitter)) (outage failures ++ rest) (after_failures 0 attempt)
              (return overflow_error)
              (run_pass-transient (e, jitter) 0 attempt h
                ∙ back_off-late jitter 0 (suc attempt) (omega arith))
      ]

  -- An outage of up to 1024 attempts is ridden out: after that many transient failures, of any kinds, the
  -- first attempt that works records the message. One of 1025 attempts or more is not: the delay's
  -- computation overflows, and `_handle` raises, whatever follows.
  pub handle-outage :
      (failures : List (Raised × ℕ)) (outcome : RecordOutcome) (rest : List Pass)
      → AllOf transient failures
      → (length failures ≤ 1024
          → handle settings message (outage failures ++ (succeeding outcome ∷ rest)) fresh
            ≡ done outcome)
        × (1024 < length failures
            → handle settings message (outage failures ++ rest) fresh ≡ overflow_error)
  unfolding handle run_pass
  handle-outage failures outcome rest h = (
    λ few. handle-early failures 0 (succeeding outcome ∷ rest) h (omega arith) ∙ refl,
    λ many. handle-late failures 0 rest h (omega arith) (omega arith),
  )

  -- a pass with a pending letter, whose publication works
  publishing :
      (letter : DeadLetter) (failures attempt : ℕ) (outcome : RecordOutcome) (rest : List Pass)
      → handle settings message (succeeding outcome ∷ rest) (record {
        pending_letter = some letter;
        unexpected_failures = failures;
        attempt = attempt;
      })
        ≡ dead_lettered letter
  unfolding handle run_pass
  publishing letter failures attempt outcome rest = refl

  run_pass-unexpected :
      (failure : Raised × ℕ) (failures attempt : ℕ)
      → classify_failure failure.0 ≡ unexpected
      → run_pass settings message (failing failure) (after_failures failures attempt) ≡ (
          if leb settings.max_unexpected_error_attempts (suc failures)
          then continue (record {
            pending_letter = some (letter_for settings message failure.0 unexpected (suc attempt));
            unexpected_failures = suc failures;
            attempt = suc attempt;
          })
          else back_off settings message failure.1 (after_failures (suc failures) (suc attempt)))
  unfolding run_pass on_failure gives_up
  run_pass-unexpected (e, jitter) failures attempt h = rw (h, add-one) refl

  handle-poison_from :
      (failures : List (Raised × ℕ)) (n : ℕ) (outcome : RecordOutcome) (rest : List Pass)
      → AllOf unexpected failures
      → n < settings.max_unexpected_error_attempts
      → n + length failures ≡ settings.max_unexpected_error_attempts
      → settings.max_unexpected_error_attempts ≤ 1024
      → (letter : DeadLetter) × (handle settings message
            (outage failures ++ (succeeding outcome ∷ rest))
            (after_failures n n)
          ≡ dead_lettered letter)
        × (letter.failure_class ≡ unexpected)
        × (letter.attempts ≡ settings.max_unexpected_error_attempts)
  handle-poison_from [] n outcome rest h few total small = absurd (omega arith)
  handle-poison_from ((e, jitter) ∷ []) n outcome rest (h, hs) few total small =
      let last : leb settings.max_unexpected_error_attempts (suc n) ≡ true = ground arith in
      let letter = letter_for settings message e unexpected (suc n) in
      (
        letter,
        handle-next (failing (e, jitter)) (succeeding outcome ∷ rest) (after_failures n n)
              (continue (record {
                pending_letter = some letter;
                unexpected_failures = suc n;
                attempt = suc n;
              }))
              (rw (run_pass-unexpected (e, jitter) n n h, last) refl)
            ∙ publishing letter (suc n) (suc n) outcome rest,
        refl,
        omega arith,
      )
  handle-poison_from ((e, jitter) ∷ other ∷ failures) n outcome rest (h, hs) few total small =
      let more : leb settings.max_unexpected_error_attempts (suc n) ≡ false = ground arith in
      let (letter, ends, class_eq, attempts_eq) =
        handle-poison_from (other ∷ failures) (suc n) outcome rest hs (omega arith) (omega arith)
          small in
      (
        letter,
        handle-next (failing (e, jitter)) (outage (other ∷ failures) ++ (succeeding outcome ∷ rest))
              (after_failures n n) (continue (after_failures (suc n) (suc n)))
              (rw (run_pass-unexpected (e, jitter) n n h, more)
                (back_off-early jitter (suc n) (suc n) (omega arith)))
            ∙ ends,
        class_eq,
        attempts_eq,
      )

  -- A poison message does not hold its partition: when every attempt fails unexpectedly, the message is
  -- dead-lettered after exactly the configured number of attempts (1 to 1024), in the next pass, if the
  -- letter can be published.
  pub handle-poison :
      (failures : List (Raised × ℕ)) (outcome : RecordOutcome) (rest : List Pass)
      → AllOf unexpected failures
      → 1 ≤ settings.max_unexpected_error_attempts
      → settings.max_unexpected_error_attempts ≤ 1024
      → length failures ≡ settings.max_unexpected_error_attempts
      → (letter : DeadLetter) × (handle settings message
            (outage failures ++ (succeeding outcome ∷ rest))
            fresh
          ≡ dead_lettered letter)
        × (letter.failure_class ≡ unexpected)
        × (letter.attempts ≡ settings.max_unexpected_error_attempts)
  handle-poison failures outcome rest h some_attempts small total =
      handle-poison_from failures 0 outcome rest h (omega arith) (omega arith) small
