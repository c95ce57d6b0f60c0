-- ===== src/Worker/Outcomes.antt =====
-- How `_handle` (app/worker.py) ends: what it dead-letters and when, and how long it retries.
use fraud_detection.Prelude.{
  ℕ, suc, ◌≤◌, ◌≡◌, refl, subst, true, Option, none, some, List, [], ◌∷◌, arith, Bool-cases, inl,
  inr,
}
use fraud_detection.Prelude.Result.{Result, ok, err}
use fraud_detection.Errors.{
  FailureClass, transient, permanent, unexpected, Raised, classify_failure,
}
use fraud_detection.Database.Rows.{RecordOutcome}
use fraud_detection.Worker.Handle.{
  WorkerSettings, Message, DeadLetter, retry_delay, Pass, Progress, fresh, Handled, done,
  dead_lettered, abandoned, overflow_error, still, Next, return, continue, counted, back_off,
  gives_up, on_failure, process_once, publish_once, attempt_once, run_pass, handle,
}

module _ (settings : WorkerSettings) (message : Message) where
  -- What a dead letter must be: the message's own bytes and place, with an error that is not transient.
  pub record IsOwnLetter (letter : DeadLetter) : Type 0 where
    pub offset_eq : letter.source_offset ≡ message.offset
    pub key_eq : letter.key ≡ message.key
    pub value_eq : letter.value ≡ message.value
    pub class_eq : classify_failure letter.error ≡ letter.failure_class
    pub not_transient : ¬ (letter.failure_class ≡ transient)

  abbrev IsRight : Option DeadLetter → Type 0
  IsRight none = Unit
  IsRight (some letter) = IsOwnLetter letter

  IsSound : Progress → Type 0
  IsSound p = (p.unexpected_failures ≤ p.attempt) × IsRight p.pending_letter

  abbrev IsSoundEnd : Handled → Type 0
  IsSoundEnd (done outcome) = Unit
  IsSoundEnd (dead_lettered letter) = IsOwnLetter letter
  IsSoundEnd abandoned = Unit
  IsSoundEnd overflow_error = Unit
  IsSoundEnd (still p) = IsSound p

  abbrev IsSoundNext : Next → Type 0
  IsSoundNext (return result) = IsSoundEnd result
  IsSoundNext (continue p) = IsSound p

  back_off-IsSound :
      (jitter : ℕ) (p : Progress) → IsSound p → IsSoundNext (back_off settings message jitter p)
  unfolding back_off
  back_off-IsSound jitter p h =
      split (retry_delay jitter p.attempt settings.retry_initial_backoff settings.retry_max_backoff)
    where
      split :
          (o : Option ℕ)
          → IsSoundNext (elim o [ none ↦ return overflow_error | some delay ↦ continue p ])
      split none = tt
      split (some delay) = h

  pub gives_up-eq :
      (failure : FailureClass) (failures : ℕ)
      → gives_up settings message failure failures ≡ true
      → ¬ (failure ≡ transient)
        × (failure ≡ unexpected → settings.max_unexpected_error_attempts ≤ failures)
  unfolding gives_up
  gives_up-eq transient failures h = absurd (cc)
  gives_up-eq permanent failures h = (λ e. cc, λ e. absurd (cc))
  gives_up-eq unexpected failures h = (λ e. cc, λ e. ground arith)

  on_failure-IsSound :
      (jitter : ℕ) (e : Raised) (failure : FailureClass) (failures attempt : ℕ)
      → classify_failure e ≡ failure
      → failures ≤ attempt
      → IsSoundNext (on_failure settings message jitter e failure failures attempt)
  unfolding on_failure IsSound
  on_failure-IsSound jitter e failure failures attempt same few =
      elim (Bool-cases (gives_up settings message failure failures)) [
        | inl given_up ↦
            let (not_transient, _) = gives_up-eq failure failures given_up in
            rw given_up (
              few,
              record {
                offset_eq = refl;
                key_eq = refl;
                value_eq = refl;
                class_eq = same;
                not_transient = not_transient;
              },
            )
        | inr not_yet ↦ rw not_yet (
            back_off-IsSound jitter
              (record { pending_letter = none; unexpected_failures = failures; attempt = attempt })
              (few, tt))
      ]

  counted-le :
      (failure : FailureClass) (n attempt : ℕ) → n ≤ attempt → counted failure n ≤ suc attempt
  counted-le transient n attempt h = omega arith
  counted-le permanent n attempt h = omega arith
  counted-le unexpected n attempt h = omega arith

  abbrev retrying : DeadLetter → ℕ → ℕ → Progress
  retrying letter failures attempt = record {
    pending_letter = some letter;
    unexpected_failures = failures;
    attempt = attempt;
  }

  attempt_once-IsSound :
      (pass : Pass) (pending : Option DeadLetter) (failures attempt : ℕ)
      → failures ≤ attempt
      → IsRight pending
      → IsSoundNext (attempt_once settings message pass pending failures (suc attempt))
  unfolding IsSound
  attempt_once-IsSound pass none failures attempt few h = split pass.processed
    where
      split :
          (r : Result Raised RecordOutcome)
          → IsSoundNext (process_once settings message pass.jitter failures (suc attempt) r)
      split (ok outcome) = tt
      split (err e) =
          on_failure-IsSound pass.jitter e (classify_failure e)
            (counted (classify_failure e) failures) (suc attempt) refl
            (counted-le (classify_failure e) failures attempt few)
  attempt_once-IsSound pass (some letter) failures attempt few h = split pass.published
    where
      split :
          (r : Result Raised (Unit {0}))
          → IsSoundNext (
              publish_once settings message pass.jitter
                (retrying letter failures (suc attempt))
                letter
                r)
      split (ok _) = h
      split (err e) =
          back_off-IsSound pass.jitter (retrying letter failures (suc attempt)) (omega arith, h)

  run_pass-IsSound :
      (pass : Pass) (p : Progress) → IsSound p → IsSoundNext (run_pass settings message pass p)
  unfolding run_pass IsSound
  run_pass-IsSound pass p h = elim (Bool-cases pass.stopping) [
    | inl stopping ↦ rw stopping tt
    | inr not_stopping ↦
        rw not_stopping
          (attempt_once-IsSound pass p.pending_letter p.unexpected_failures p.attempt h.0 h.1)
  ]

  handle-IsSound :
      (passes : List Pass) (p : Progress)
      → IsSound p
      → IsSoundEnd (handle settings message passes p)
  unfolding handle
  handle-IsSound [] p h = h
  handle-IsSound (pass ∷ passes) p h =
      split (λ q k. handle-IsSound passes q k) (run_pass settings message pass p)
        (run_pass-IsSound pass p h)
    where
      split :
          ((q : Progress) → IsSound q → IsSoundEnd (handle settings message passes q))
          → (next : Next) → IsSoundNext next
          → IsSoundEnd
              (elim next [ return result ↦ result | continue q ↦ handle settings message passes q ])
      split later (return result) k = k
      split later (continue q) k = later q k

  pub handle-IsOwnLetter :
      (passes : List Pass) (letter : DeadLetter)
      → handle settings message passes fresh ≡ dead_lettered letter
      → IsOwnLetter letter
  unfolding IsSound
  handle-IsOwnLetter passes letter e =
      subst IsSoundEnd e (handle-IsSound passes fresh (omega arith, tt))
