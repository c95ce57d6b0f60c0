-- ===== src/Batch/Schedule.antt =====
-- When the summary of app/batch_worker.py runs.
use fraud_detection.Prelude.{
  ℕ, ◌+◌, ◌-◌, ◌*◌, ◌%◌, ◌≤◌, ◌<◌, ◌≡◌, sym, subst, false, leb, leb→le, Bool-cases, inl, inr,
  if-true, if-false, arith,
}
use fraud_detection.Batch.{second, day, run_of_day, seconds_until_next_run}

-- the run's place in a day
abbrev pub time_of_day : ℕ → ℕ → ℕ
time_of_day run_hour run_minute = (run_hour * 3600 + run_minute * 60) * second

-- What the wait has to be.
abbrev IsWait : ℕ → ℕ → ℕ → Type 0
IsWait now time wait = (0 < wait) × (wait ≤ day) × ((now + wait) % day ≡ time)

tomorrow :
    (now time : ℕ)
    → time < day
    → now - now % day + time ≤ now
    → IsWait now time (now - now % day + time + day - now)
tomorrow now time h past = (omega arith, omega arith, omega arith)

today :
    (now time : ℕ)
    → time < day
    → now < now - now % day + time
    → IsWait now time (now - now % day + time - now)
today now time h ahead = (omega arith, omega arith, omega arith)

time_of_day-lt :
    (run_hour run_minute : ℕ)
    → run_hour < 24
    → run_minute < 60
    → time_of_day run_hour run_minute < day
time_of_day-lt run_hour run_minute h m = omega arith

-- The wait is more than nothing and at most a day, and it ends at the configured time of day.
pub seconds_until_next_run-day :
    (now run_hour run_minute : ℕ)
    → run_hour < 24
    → run_minute < 60
    → (0 < seconds_until_next_run now run_hour run_minute)
      × (seconds_until_next_run now run_hour run_minute ≤ day)
      × ((now + seconds_until_next_run now run_hour run_minute) % day
          ≡ time_of_day run_hour run_minute)
unfolding seconds_until_next_run
seconds_until_next_run-day now run_hour run_minute h m =
    let in_day = time_of_day-lt run_hour run_minute h m in
    let target = run_of_day now run_hour run_minute in
    elim (Bool-cases (leb target now)) [
      | inl past ↦
          subst (IsWait now (time_of_day run_hour run_minute))
            (sym (if-true (target + day - now) (target - now) past))
            (tomorrow now (time_of_day run_hour run_minute) in_day (leb→le target now past))
      | inr ahead ↦
          subst (IsWait now (time_of_day run_hour run_minute))
            (sym (if-false (target + day - now) (target - now) ahead))
            (today now (time_of_day run_hour run_minute) in_day (not_le target ahead))
    ]
  where
    not_le : (target : ℕ) → leb target now ≡ false → now < target
    not_le target e = ground arith
