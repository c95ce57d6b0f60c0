-- ===== src/Batch.antt =====
-- app/batch_worker.py: the daily summary. An instant is a number of microseconds since the beginning of
-- a day in UTC, as `datetime` counts them.
pub mod Schedule
pub mod Examples
use fraud_detection.Prelude.{
  ℕ, ◌+◌, ◌-◌, ◌*◌, ◌%◌, ◌≤◌, ◌<◌, ◌≡◌, String, Bool, true, false, List, [], ◌∷◌, leb,
  if◌then◌else◌, str_eq, ◌||◌,
}
use fraud_detection.Database.Rows.{TransactionRecord}
use fraud_detection.Database.Summary.{Summary, summarize_transactions}

abbrev pub second : ℕ
second = 1000000

abbrev pub day : ℕ
day = 86400 * second

-- `now.replace(hour=run_hour, minute=run_minute, second=0, microsecond=0)`
unfoldable pub run_of_day : ℕ → ℕ → ℕ → ℕ
run_of_day now run_hour run_minute = now - now % day + (run_hour * 3600 + run_minute * 60) * second

-- `seconds_until_next_run`, in microseconds
unfoldable pub seconds_until_next_run : ℕ → ℕ → ℕ → ℕ
unfolding run_of_day
seconds_until_next_run now run_hour run_minute =
    let target = run_of_day now run_hour run_minute in
    if leb target now then target + day - now else target - now

-- `run_summary`, of the decisions since `window_hours` before `now`
unfoldable pub run_summary : ℕ → ℕ → List TransactionRecord → Summary
unfolding summarize_transactions
run_summary window_hours now table =
    summarize_transactions (now - window_hours * 3600 * second) table

-- How one round of the resident loop goes: a signal ends the wait, or the summary runs or fails.
pub data Night : Type 0 where
  signalled ran run_failed : Night

-- the loop of `main`: how many summaries it tried, and whether it has ended
unfoldable pub nights : List Night → ℕ × Bool
nights [] = (0, false)
nights (signalled ∷ rest) = (0, true)
nights (ran ∷ rest) = let later = nights rest in (later.0 + 1, later.1)
nights (run_failed ∷ rest) = let later = nights rest in (later.0 + 1, later.1)

-- `"--once" in argv`
abbrev pub holds_once : List String → Bool
holds_once [] = false
holds_once (argument ∷ rest) = str_eq argument "--once" || holds_once rest

abbrev pub once_code : Night → ℕ
once_code run_failed = 1
once_code _ = 0

-- `main`: its exit code and how often it tried the summary; `first` is the outcome of `--once`
unfoldable pub main : List String → Bool → Night → List Night → ℕ × ℕ
unfolding nights
main argv batch_job_enabled first rest =
    if holds_once argv
    then (once_code first, 1)
    else if batch_job_enabled
    then (0, (nights rest).0)
    else (0, 0)
