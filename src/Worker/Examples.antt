-- ===== src/Worker/Examples.antt =====
-- app/worker.py at concrete messages and partitions.
use fraud_detection.Prelude.{
  ℕ, ◌≤◌, ◌<◌, ◌≡◌, refl, Bool, true, false, if◌then◌else◌, none, some, List, [], ◌∷◌, ◌++◌, arith,
}
use fraud_detection.Errors.{
  Raised, validation, library, timeout, other_error, transient, permanent, unexpected,
  classify_failure,
}
use fraud_detection.Database.Rows.{evaluated}
use fraud_detection.Worker.Handle.{
  WorkerSettings, Message, DeadLetter, Pass, fresh, done, dead_lettered, overflow_error, handle,
  retry_delay,
}
use fraud_detection.Worker.Letters.{IsRightLetter, handle-IsRightLetter}
use fraud_detection.Worker.Retries.{
  failing, outage, succeeding, AllOf, handle-outage, handle-poison,
}
use fraud_detection.Worker.Partition.{
  PartitionState, assigned, dispatch, take_message, finish_message, dispatched, taken, finished,
  Steps, start, next,
}
use fraud_detection.Worker.Flow.{IsFinishedIn, stored-IsFinishedIn}
use fraud_detection.Worker.Pausing.{IsResumable, reachable-IsResumable}
use fraud_detection.Worker.Assignment.{
  PartitionKey, Partitions, state_of, on_assign, on_revoke, on_lost,
}
use fraud_detection.Worker.Assignment.Ownership.{or_else, assigned_in, is_among, rebalance-state_of}
use fraud_detection.Worker.Run.{
  PollResult, nothing, error, received, Turn, WorkerState, fatal_error, run,
}
use fraud_detection.Worker.Run.Lifecycle.{IsExplained, run-IsExplained}

abbrev settings : WorkerSettings
settings = record {
  max_unexpected_error_attempts = 3;
  retry_initial_backoff = 500;
  retry_max_backoff = 30000;
  partition_high_watermark = 500;
}

abbrev message : Message
message = record {
  topic = "transactions";
  partition = 0;
  offset = 12;
  key = none;
  value = some "{}";
}

abbrev invalid_letter : DeadLetter
invalid_letter = record {
  source_topic = "transactions";
  source_partition = 0;
  source_offset = 12;
  key = none;
  value = some "{}";
  error = validation;
  failure_class = permanent;
  attempts = 1;
}

abbrev invalid_passes : List Pass
invalid_passes = failing (validation, 700) ∷ succeeding evaluated ∷ []

invalid_end : handle settings message invalid_passes fresh ≡ dead_lettered invalid_letter
unfolding handle classify_failure
invalid_end = refl

abbrev mixed_passes : List Pass
mixed_passes =
    failing (library other_error, 700)
    ∷ failing (library timeout, 700)
    ∷ failing (library other_error, 700)
    ∷ failing (library other_error, 700)
    ∷ succeeding evaluated
    ∷ []

abbrev crash_letter : DeadLetter
crash_letter = record {
  source_topic = "transactions";
  source_partition = 0;
  source_offset = 12;
  key = none;
  value = some "{}";
  error = library other_error;
  failure_class = unexpected;
  attempts = 4;
}

mixed_end : handle settings message mixed_passes fresh ≡ dead_lettered crash_letter
unfolding handle classify_failure
mixed_end = refl

handle-IsRightLetter_example : IsRightLetter settings message mixed_passes crash_letter
handle-IsRightLetter_example =
    handle-IsRightLetter settings message mixed_passes crash_letter mixed_end

two_timeouts : AllOf transient ((library timeout, 700) ∷ (library timeout, 800) ∷ [])
unfolding classify_failure
two_timeouts = (refl, (refl, tt))

handle-outage_example :
    (2 ≤ 1024
      → handle settings message
          (outage ((library timeout, 700) ∷ (library timeout, 800) ∷ [])
            ++ (succeeding evaluated ∷ []))
          fresh
        ≡ done evaluated)
    × (1024 < 2
        → handle settings message
            (outage ((library timeout, 700) ∷ (library timeout, 800) ∷ []) ++ [])
            fresh
          ≡ overflow_error)
handle-outage_example =
    handle-outage settings message ((library timeout, 700) ∷ (library timeout, 800) ∷ []) evaluated
      [] two_timeouts

abbrev three_crashes : List (Raised × ℕ)
three_crashes =
    (library other_error, 500) ∷ (library other_error, 600) ∷ (library other_error, 700) ∷ []

three_crashes-AllOf : AllOf unexpected three_crashes
unfolding classify_failure
three_crashes-AllOf = (refl, (refl, (refl, tt)))

handle-poison_example :
    (letter : DeadLetter) × (handle settings message
        (outage three_crashes ++ (succeeding evaluated ∷ []))
        fresh
      ≡ dead_lettered letter)
    × (letter.failure_class ≡ unexpected)
    × (letter.attempts ≡ 3)
handle-poison_example =
    handle-poison settings message three_crashes evaluated [] three_crashes-AllOf (omega arith)
      (omega arith) refl

third_delay : retry_delay 750 3 500 30000 ≡ some 1500000
unfolding retry_delay
third_delay = refl

abbrev queued : PartitionState
queued = dispatch settings message (assigned 12)

abbrev in_work : PartitionState
in_work = take_message settings message [] queued

abbrev passes : List Pass
passes = succeeding evaluated ∷ []

abbrev recorded : PartitionState
recorded = finish_message settings message (handle settings message passes fresh) true in_work

three_steps : Steps settings queued recorded
unfolding dispatch take_message finish_message handle
three_steps =
    next queued in_work recorded
      (next queued queued in_work (start queued) (taken queued message [] refl refl))
      (finished in_work message passes true refl tt (λ e. absurd (cc)))

message_passed : 12 < recorded.stored
unfolding finish_message handle
message_passed = omega arith

stored-IsFinishedIn_example : IsFinishedIn settings message three_steps
stored-IsFinishedIn_example =
    stored-IsFinishedIn settings 12 message (assigned 12) recorded three_steps (start (assigned 12))
      (omega arith) message_passed

one_step : Steps settings (assigned 12) queued
one_step =
    next (assigned 12) (assigned 12) queued (start (assigned 12))
      (dispatched (assigned 12) message (omega arith))

reachable-IsResumable_example : IsResumable settings one_step
reachable-IsResumable_example = reachable-IsResumable settings (omega arith) 12 queued one_step

abbrev key_zero : PartitionKey
key_zero = ("transactions", 0)

abbrev key_one : PartitionKey
key_one = ("transactions", 1)

abbrev held : Partitions
held = (key_zero, dispatch settings message (assigned 12)) ∷ []

rebalance-state_of_example :
    (state_of key_zero (on_assign ((key_zero, 5) ∷ (key_one, 7) ∷ []) held).partitions
      ≡ or_else (state_of key_zero held) (assigned_in key_zero ((key_zero, 5) ∷ (key_one, 7) ∷ [])))
    × (state_of key_zero (on_revoke (key_zero ∷ []) held).partitions
        ≡ (if is_among key_zero (key_zero ∷ []) then none else state_of key_zero held))
    × ((on_lost (key_zero ∷ []) held).partitions ≡ (on_revoke (key_zero ∷ []) held).partitions)
    × ((on_assign ((key_zero, 5) ∷ (key_one, 7) ∷ []) held).commits ≡ false)
    × ((on_revoke (key_zero ∷ []) held).commits ≡ true)
    × ((on_lost (key_zero ∷ []) held).commits ≡ false)
rebalance-state_of_example =
    rebalance-state_of key_zero ((key_zero, 5) ∷ (key_one, 7) ∷ []) (key_zero ∷ []) held

abbrev turn_at : ℕ → Bool → PollResult → Turn
turn_at now member polled = record {
  running = true;
  now = now;
  member = member;
  touches = true;
  callbacks = [];
  polled = polled;
}

abbrev turns : List Turn
turns =
    turn_at 10 true nothing
    ∷ turn_at 60 false (received message)
    ∷ turn_at 129 false (error true)
    ∷ []

abbrev begun : WorkerState
begun = record { partitions = held; last_group_membership = 5; heartbeat = none; closed = false }

run-turns : (run settings 120 turns begun).0 ≡ fatal_error
unfolding run
run-turns = refl

run-IsExplained_example : IsExplained settings 120 5 turns (run settings 120 turns begun)
run-IsExplained_example = run-IsExplained settings 120 turns begun refl
