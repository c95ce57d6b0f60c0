-- ===== src/Batch/Examples.antt =====
-- Tests of the daily schedule.
use fraud_detection.Prelude.{◌+◌, ◌*◌, ◌%◌, ◌≤◌, ◌<◌, ◌≡◌, refl, true, [], ◌∷◌, arith}
use fraud_detection.Batch.{second, day, seconds_until_next_run, ran, run_failed, signalled, main}
use fraud_detection.Batch.Schedule.{time_of_day, seconds_until_next_run-day}

-- at half past one, a run at one o'clock is tomorrow's
seconds_until_next_run-day_example :
    (0 < seconds_until_next_run (5400 * second) 1 0)
    × (seconds_until_next_run (5400 * second) 1 0 ≤ day)
    × ((5400 * second + seconds_until_next_run (5400 * second) 1 0) % day ≡ time_of_day 1 0)
seconds_until_next_run-day_example =
    seconds_until_next_run-day (5400 * second) 1 0 (omega arith) (omega arith)

-- a summary that fails does not end the schedule
main-nights : main ("batch_worker" ∷ []) true ran (ran ∷ run_failed ∷ ran ∷ signalled ∷ []) ≡ (0, 3)
unfolding main
main-nights = refl

main-once : main ("batch_worker" ∷ "--once" ∷ []) true run_failed [] ≡ (1, 1)
unfolding main
main-once = refl
