-- ===== src/Worker/Handle.antt =====
-- `retry_delay` and `_handle` of app/worker.py: one message to completion. What the processor and the
-- dead-letter publisher do in a pass of the loop, and whether the partition is stopping when the pass
-- starts, is the pass's input; the attempts and delays are recorded. Times are milliseconds.
use fraud_detection.Prelude.{
  ℕ, suc, ◌+◌, ◌-◌, ◌*◌, ◌^◌, String, Bool, Option, none, some, List, [], ◌∷◌, leb, if◌then◌else◌,
  ◌&&◌, ◌||◌, true, false,
}
use Prim.Native.Nat.{min}
use fraud_detection.Prelude.Result.{Result, ok, err}
use fraud_detection.Errors.{
  FailureClass, transient, permanent, unexpected, Raised, classify_failure,
}
use fraud_detection.Database.Rows.{RecordOutcome}

pub record WorkerSettings : Type 0 where
  pub max_unexpected_error_attempts : ℕ
  pub retry_initial_backoff : ℕ
  pub retry_max_backoff : ℕ
  pub partition_high_watermark : ℕ

pub record Message : Type 0 where
  pub topic : String
  pub partition : ℕ
  pub offset : ℕ
  pub key : Option String
  pub value : Option String

-- `DeadLetter` of app/dlq.py; the correlation id is a logging context that no decision reads.
pub record DeadLetter : Type 0 where
  pub source_topic : String
  pub source_partition : ℕ
  pub source_offset : ℕ
  pub key : Option String
  pub value : Option String
  pub error : Raised
  pub failure_class : FailureClass
  pub attempts : ℕ

-- The largest power of two that a float holds: Python raises `OverflowError` when it multiplies a
-- float by a larger one.
abbrev pub max_exponent : ℕ
max_exponent = 1023

-- `retry_delay`; `jitter` is `random.uniform(0.5, 1.0)` in thousandths, and the delay is in
-- thousandths of a millisecond. `none` is the `OverflowError`.
unfoldable pub retry_delay : ℕ → ℕ → ℕ → ℕ → Option ℕ
retry_delay jitter attempt initial maximum =
    if leb (attempt - 1) max_exponent
    then some (min maximum (initial * 2 ^ (attempt - 1)) * jitter)
    else none

-- What one pass of the loop meets.
pub record Pass : Type 0 where
  pub stopping : Bool
  pub processed : Result Raised RecordOutcome
  pub published : Result Raised (Unit {0})
  pub jitter : ℕ

-- the local variables of `_handle` that its decisions read
pub record Progress : Type 0 where
  pub pending_letter : Option DeadLetter
  pub unexpected_failures : ℕ
  pub attempt : ℕ

abbrev pub fresh : Progress
fresh = record { pending_letter = none; unexpected_failures = 0; attempt = 0 }

-- How `_handle` ends, or where it stands when the passes are over.
pub data Handled : Type 0 where
  done : RecordOutcome → Handled
  dead_lettered : DeadLetter → Handled
  abandoned : Handled
  overflow_error : Handled
  still : Progress → Handled

-- What a pass leads to: the end, or the next pass after a delay.
pub data Next : Type 0 where
  return : Handled → Next
  continue : Progress → Next

abbrev pub counted : FailureClass → ℕ → ℕ
counted unexpected n = n + 1
counted transient n = n
counted permanent n = n

abbrev pub is_permanent : FailureClass → Bool
is_permanent permanent = true
is_permanent _ = false

abbrev pub is_unexpected : FailureClass → Bool
is_unexpected unexpected = true
is_unexpected _ = false

module _ (settings : WorkerSettings) (message : Message) where
  abbrev pub letter_for : Raised → FailureClass → ℕ → DeadLetter
  letter_for e failure attempt = record {
    source_topic = message.topic;
    source_partition = message.partition;
    source_offset = message.offset;
    key = message.key;
    value = message.value;
    error = e;
    failure_class = failure;
    attempts = attempt;
  }

  -- the end of the loop's body: the delay before the next pass
  unfoldable pub back_off : ℕ → Progress → Next
  unfolding retry_delay
  back_off jitter progress =
      elim (retry_delay jitter progress.attempt settings.retry_initial_backoff
        settings.retry_max_backoff) [
          | none ↦ return overflow_error
          | some delay ↦ continue progress
        ]

  -- whether the failure makes the message undeliverable
  unfoldable pub gives_up : FailureClass → ℕ → Bool
  gives_up failure failures =
      is_permanent failure
      || (is_unexpected failure && leb settings.max_unexpected_error_attempts failures)

  -- the processing failed, in the attempt with the number `attempt`
  unfoldable pub on_failure : ℕ → Raised → FailureClass → ℕ → ℕ → Next
  unfolding back_off gives_up
  on_failure jitter e failure failures attempt =
      if gives_up failure failures
      then continue (record {
        pending_letter = some (letter_for e failure attempt);
        unexpected_failures = failures;
        attempt = attempt;
      })
      else back_off jitter
          (record { pending_letter = none; unexpected_failures = failures; attempt = attempt })

  abbrev pub process_once : ℕ → ℕ → ℕ → Result Raised RecordOutcome → Next
  process_once jitter failures attempt (ok outcome) = return (done outcome)
  process_once jitter failures attempt (err e) =
      on_failure jitter e (classify_failure e) (counted (classify_failure e) failures) attempt

  abbrev pub publish_once : ℕ → Progress → DeadLetter → Result Raised (Unit {0}) → Next
  publish_once jitter progress letter (ok _) = return (dead_lettered letter)
  publish_once jitter progress letter (err e) = back_off jitter progress

  -- one pass: an attempt to process the message, or to publish its dead letter
  abbrev pub attempt_once : Pass → Option DeadLetter → ℕ → ℕ → Next
  attempt_once pass none failures attempt = process_once pass.jitter failures attempt pass.processed
  attempt_once pass (some letter) failures attempt =
      publish_once pass.jitter
        (record { pending_letter = some letter; unexpected_failures = failures; attempt = attempt })
        letter pass.published

  unfoldable pub run_pass : Pass → Progress → Next
  unfolding on_failure
  run_pass pass progress =
      if pass.stopping
      then return abandoned
      else attempt_once pass progress.pending_letter progress.unexpected_failures
          (suc progress.attempt)

  -- `_handle`, for the passes that it makes
  unfoldable pub handle : List Pass → Progress → Handled
  unfolding run_pass
  handle [] progress = still progress
  handle (pass ∷ passes) progress = elim (run_pass pass progress) [
    | return result ↦ result
    | continue next ↦ handle passes next
  ]
