-- ===== src/Worker/Letters.antt =====
-- When `_handle` (app/worker.py) gives a message up: the unexpected failures of its attempts are enough.
use fraud_detection.Prelude.{
  ℕ, zero, suc, ◌+◌, ◌≤◌, ◌≡◌, refl, sym, subst, Bool, true, false, Option, none, some, List, [],
  ◌∷◌, arith, Bool-cases, inl, inr, if◌then◌else◌, if-both,
}
use fraud_detection.Prelude.Result.{Result, ok, err}
use fraud_detection.Errors.{
  FailureClass, transient, permanent, unexpected, Raised, classify_failure,
}
use fraud_detection.Database.Rows.{RecordOutcome}
use fraud_detection.Worker.Handle.{
  WorkerSettings, Message, DeadLetter, retry_delay, Pass, Progress, fresh, Handled, done,
  dead_lettered, abandoned, overflow_error, still, Next, return, continue, counted, is_unexpected,
  letter_for, back_off, gives_up, on_failure, process_once, publish_once, run_pass, handle,
}
use fraud_detection.Worker.Outcomes.{IsOwnLetter, handle-IsOwnLetter, gives_up-eq}

-- whether a pass that attempts to process the message fails unexpectedly
abbrev pub fails_unexpectedly : Result Raised RecordOutcome → Bool
fails_unexpectedly (ok outcome) = false
fails_unexpectedly (err e) = is_unexpected (classify_failure e)

-- the unexpected failures of the processing in the first passes
unfoldable pub unexpected_in : ℕ → List Pass → ℕ
unexpected_in zero passes = 0
unexpected_in (suc n) [] = 0
unexpected_in (suc n) (pass ∷ passes) =
    let rest = unexpected_in n passes in
    if fails_unexpectedly pass.processed then suc rest else rest

unexpected_in-failed :
    (pass : Pass) (passes : List Pass) (e : Raised) (c : FailureClass) (failures n : ℕ)
    → pass.processed ≡ err e
    → classify_failure e ≡ c
    → failures + unexpected_in (suc n) (pass ∷ passes) ≡ counted c failures + unexpected_in n passes
unfolding unexpected_in
unexpected_in-failed pass passes e transient failures n failed class = rw (failed, class) refl
unexpected_in-failed pass passes e permanent failures n failed class = rw (failed, class) refl
unexpected_in-failed pass passes e unexpected failures n failed class =
    rw (failed, class) (omega arith)

abbrev followed : (Progress → Handled) → Next → Handled
followed later next = elim next [ return result ↦ result | continue q ↦ later q ]

abbrev trying : ℕ → ℕ → Progress
trying failures attempt = record {
  pending_letter = none;
  unexpected_failures = failures;
  attempt = attempt;
}

abbrev publishing : DeadLetter → ℕ → ℕ → Progress
publishing letter failures attempt = record {
  pending_letter = some letter;
  unexpected_failures = failures;
  attempt = attempt;
}

module _ (settings : WorkerSettings) (message : Message) where
  back_off-followed :
      (jitter : ℕ) (p : Progress) (later : Progress → Handled) (P : Handled → Type 0)
      → P overflow_error
      → P (later p)
      → P (followed later (back_off settings message jitter p))
  unfolding back_off
  back_off-followed jitter p later P over goes =
      split (retry_delay jitter p.attempt settings.retry_initial_backoff settings.retry_max_backoff)
    where
      split :
          (o : Option ℕ)
          → P (followed later (elim o [ none ↦ return overflow_error | some delay ↦ continue p ]))
      split none = over
      split (some delay) = goes

  abbrev Publishes : DeadLetter → Handled → Type 0
  Publishes letter (dead_lettered other) = other ≡ letter
  Publishes letter _ = Unit

  -- a letter that is pending is the one that is published
  handle-Publishes :
      (passes : List Pass) (letter : DeadLetter) (failures attempt : ℕ)
      → Publishes letter (handle settings message passes (publishing letter failures attempt))
  unfolding handle run_pass
  handle-Publishes [] letter failures attempt = tt
  handle-Publishes (pass ∷ passes) letter failures attempt = elim (Bool-cases pass.stopping) [
    | inl stopping ↦ rw stopping tt
    | inr goes ↦
        rw goes (split pass.published (handle-Publishes passes letter failures (suc attempt)))
  ]
    where
      split :
          (r : Result Raised (Unit {0}))
          → Publishes letter
              (handle settings message passes (publishing letter failures (suc attempt)))
          → Publishes letter (
              followed (handle settings message passes) (
                publish_once settings message pass.jitter
                  (publishing letter failures (suc attempt))
                  letter
                  r))
      split (ok _) h = refl
      split (err e) h =
          back_off-followed pass.jitter (publishing letter failures (suc attempt))
            (handle settings message passes) (Publishes letter) tt h

  -- A letter was made some attempts later, and an unexpected one when the failures had become enough.
  abbrev IsEarned : List Pass → ℕ → ℕ → Handled → Type 0
  IsEarned passes failures attempt (dead_lettered letter) =
      (more : ℕ) × (letter.attempts ≡ attempt + more)
      × (letter.failure_class ≡ unexpected
          → settings.max_unexpected_error_attempts ≤ failures + unexpected_in more passes)
  IsEarned passes failures attempt _ = Unit

  module _ (pass : Pass) (passes : List Pass) (e : Raised) (failures attempt : ℕ)
      (failed : pass.processed ≡ err e) where
    abbrev class : FailureClass
    class = classify_failure e

    later-IsEarned :
        (result : Handled)
        → IsEarned passes (counted class failures) (suc attempt) result
        → IsEarned (pass ∷ passes) failures attempt result
    later-IsEarned (dead_lettered letter) (more, after, enough) = (
      suc more,
      omega (arith, after),
      λ same.
          subst (λ k. settings.max_unexpected_error_attempts ≤ k)
            (sym (unexpected_in-failed pass passes e class failures more failed refl))
            (enough same),
    )
    later-IsEarned (done outcome) h = tt
    later-IsEarned abandoned h = tt
    later-IsEarned overflow_error h = tt
    later-IsEarned (still p) h = tt

    published-IsEarned :
        (result : Handled)
        → gives_up settings message class (counted class failures) ≡ true
        → Publishes (letter_for settings message e class (suc attempt)) result
        → IsEarned (pass ∷ passes) failures attempt result
    unfolding unexpected_in
    published-IsEarned (dead_lettered letter) given_up same =
        let (_, enough) = gives_up-eq settings message class (counted class failures) given_up in
        rw same (
          1,
          omega arith,
          λ is_unexpected_.
              subst (λ k. settings.max_unexpected_error_attempts ≤ k)
                (sym (unexpected_in-failed pass passes e class failures 0 failed refl))
                (omega (arith, enough is_unexpected_)),
        )
    published-IsEarned (done outcome) given_up h = tt
    published-IsEarned abandoned given_up h = tt
    published-IsEarned overflow_error given_up h = tt
    published-IsEarned (still p) given_up h = tt

    failed-IsEarned :
        IsEarned passes
          (counted class failures)
          (suc attempt)
          (handle settings message passes (trying (counted class failures) (suc attempt)))
        → IsEarned (pass ∷ passes) failures attempt (
            followed (handle settings message passes) (
              on_failure settings message pass.jitter e class
                (counted class failures)
                (suc attempt)))
    unfolding on_failure
    failed-IsEarned h =
        elim (Bool-cases (gives_up settings message class (counted class failures))) [
          | inl given_up ↦ rw given_up (
              published-IsEarned
                (handle settings message passes (
                  publishing (letter_for settings message e class (suc attempt))
                    (counted class failures) (suc attempt)))
                given_up
                (handle-Publishes passes (letter_for settings message e class (suc attempt))
                  (counted class failures) (suc attempt)))
          | inr not_yet ↦ rw not_yet (
              back_off-followed pass.jitter (trying (counted class failures) (suc attempt))
                (handle settings message passes) (IsEarned (pass ∷ passes) failures attempt) tt
                (later-IsEarned
                  (handle settings message passes (trying (counted class failures) (suc attempt)))
                  h))
        ]

  handle-IsEarned :
      (passes : List Pass) (failures attempt : ℕ)
      → IsEarned passes failures attempt (handle settings message passes (trying failures attempt))
  unfolding handle run_pass
  handle-IsEarned [] failures attempt = tt
  handle-IsEarned (pass ∷ passes) failures attempt =
      if-both
        (λ (next : Next).
          IsEarned (pass ∷ passes) failures attempt
            (followed (handle settings message passes) next))
        pass.stopping tt (split pass.processed refl (λ k. handle-IsEarned passes k (suc attempt)))
    where
      split :
          (r : Result Raised RecordOutcome)
          → pass.processed ≡ r
          → ((k : ℕ)
              → IsEarned passes k
                  (suc attempt)
                  (handle settings message passes (trying k (suc attempt))))
          → IsEarned (pass ∷ passes) failures attempt (
              followed
                (handle settings message passes)
                (process_once settings message pass.jitter failures (suc attempt) r))
      split (ok outcome) failed h = tt
      split (err e) failed h =
          failed-IsEarned pass passes e failures attempt failed
            (h (counted (classify_failure e) failures))

  -- What a dead letter must be: the message's own, and earned.
  pub record IsRightLetter (passes : List Pass) (letter : DeadLetter) : Type 0 where
    pub is_own : IsOwnLetter settings message letter
    pub enough_failures :
        letter.failure_class ≡ unexpected
        → settings.max_unexpected_error_attempts ≤ unexpected_in letter.attempts passes

  earned-enough :
      (passes : List Pass) (result : Handled) (letter : DeadLetter)
      → result ≡ dead_lettered letter
      → IsEarned passes 0 0 result
      → letter.failure_class ≡ unexpected
      → settings.max_unexpected_error_attempts ≤ unexpected_in letter.attempts passes
  earned-enough passes result letter same earned class =
      let (more, all_of_them, enough) = subst (IsEarned passes 0 0) same earned in
      let counted_all : more ≡ letter.attempts = omega (arith, all_of_them) in
      subst (λ n. settings.max_unexpected_error_attempts ≤ unexpected_in n passes) counted_all
        (omega (arith, enough class))

  -- Whatever the passes of the loop meet, a message that is dead-lettered is dead-lettered rightly: the
  -- letter carries the message's own key, value and offset, its error is of the class that it names, which
  -- is never a transient one; and if it is an unexpected one, then at least as many of the attempts before
  -- the letter failed unexpectedly as the settings ask for, the transient failures not counted.
  pub handle-IsRightLetter :
      (passes : List Pass) (letter : DeadLetter)
      → handle settings message passes fresh ≡ dead_lettered letter
      → IsRightLetter passes letter
  handle-IsRightLetter passes letter e = record {
    is_own = handle-IsOwnLetter settings message passes letter e;
    enough_failures =
        earned-enough passes (handle settings message passes fresh) letter e
          (handle-IsEarned passes 0 0);
  }
