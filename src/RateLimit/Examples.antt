-- ===== src/RateLimit/Examples.antt =====
-- Tests of the limiter, with a Redis that keeps its counters in a list.
use fraud_detection.Prelude.{
  ℕ, zero, suc, ◌+◌, ◌*◌, ◌≤◌, ◌≡◌, refl, sym, ap, ◌∙◌, String, true, List, [], ◌∷◌, inl, inr, ltb,
  lt→ltb, if◌then◌else◌, if-both, if-true, if-false, str_eq, str_eq_iff, arith, Bool-cases,
}
use Prim.Native.String.{count as text_length}
use text.Mathlib.TextLemmas.{length-cons}
use text.Mathlib.TextPositions.{eq_refl as str_eq_refl}
use fraud_detection.RateLimit.{
  Counters, Limiter, Request, Enforced, passed, too_many_requests, window_of, retry_after,
  enforce_all,
}
use fraud_detection.RateLimit.Window.{IsLimiter, retry_after-window_of}
use fraud_detection.RateLimit.Promise.{AreOrdered}
use fraud_detection.RateLimit.Share.{passed_in, passed_in-enforce_all}

-- a store: for each key its counter and when it goes
abbrev pub Cells : Type 0
Cells = String → ℕ × ℕ

abbrev pub live : ℕ → ℕ × ℕ → ℕ
live now (value, expiry) = if ltb now expiry then value else 0

abbrev pub written : String → ℕ × ℕ → Cells → Cells
written key cell cells other = if str_eq key other then cell else cells other

abbrev pub listed : Counters
listed = record {
  State = Cells;
  count = λ key now cells. live now (cells key);
  incr_expire = λ key now expiry cells.
      (live now (cells key) + 1, written key (live now (cells key) + 1, expiry) cells);
  incr_count = λ key now expiry cells. refl;
  count_kept = λ key now expiry later cells le lt.
      ap (live later) (if-true (live now (cells key) + 1, expiry) (cells key) (str_eq_refl key))
      ∙ if-true (live now (cells key) + 1) 0 (lt→ltb later expiry lt);
  count_other = λ key other now expiry later cells ne.
      ap (live later) (elim (Bool-cases (str_eq key other)) [
        | inl same ↦ absurd (ne ((str_eq_iff key other).0 same))
        | inr diff ↦ if-false (live now (cells key) + 1, expiry) (cells other) diff
      ]);
}

-- a number written with strokes
abbrev strokes : ℕ → String
strokes zero = ""
strokes (suc n) = String.◌∷◌ "|" (strokes n)

abbrev plain_digest : String → String
plain_digest subject =
    if str_eq subject "alice"
    then "aaaaaaaaaaaaaaaaaaaaaaaaaaaaaaaa"
    else "bbbbbbbbbbbbbbbbbbbbbbbbbbbbbbbb"

text_length-strokes : (n : ℕ) → text_length (strokes n) ≡ n
text_length-strokes zero = refl
text_length-strokes (suc n) = length-cons "|" (strokes n) ∙ ap suc (text_length-strokes n)

abbrev pub limiter : Limiter
limiter = record {
  max_requests = 2;
  window_seconds = 60;
  tick_rate = 1000;
  digest = plain_digest;
  show = strokes;
}

limiter-IsLimiter : IsLimiter limiter
limiter-IsLimiter = record {
  rate_pos = omega arith;
  window_pos = omega arith;
  digest_length = λ subject. elim (Bool-cases (str_eq subject "alice")) [
    | inl same ↦ rw same refl
    | inr diff ↦ rw diff refl
  ];
  show_inj = λ m n e. sym (text_length-strokes m) ∙ ap text_length e ∙ text_length-strokes n;
}

abbrev pub no_cells : Cells
no_cells key = (0, 0)

abbrev request_of : String → ℕ → Request
request_of subject at = record { subject = subject; at = at; redis_up = true }

-- three requests of one caller and one of another in the first window, and one in the second
abbrev requests : List Request
requests =
    request_of "alice" 1000
    ∷ request_of "alice" 2000
    ∷ request_of "bob" 2500
    ∷ request_of "alice" 3001
    ∷ request_of "alice" 60000
    ∷ []

enforce_all-requests :
    enforce_all limiter listed requests no_cells
    ≡ passed ∷ passed ∷ passed ∷ too_many_requests 57 ∷ passed ∷ []
unfolding enforce_all fraud_detection.RateLimit.bucket_key retry_after
enforce_all-requests = refl

live_no-cells : (key : String) (now : ℕ) → live now (no_cells key) ≡ 0
live_no-cells key now = if-both (λ n. n ≡ 0) (ltb now 0) refl refl

times : AreOrdered limiter 0 requests
times = (omega arith, (omega arith, (omega arith, (omega arith, (omega arith, tt)))))

passed_in-enforce_all_example :
    passed_in limiter "aaaaaaaaaaaaaaaaaaaaaaaaaaaaaaaa" 0 requests
      (enforce_all limiter listed requests no_cells)
    ≤ 2
passed_in-enforce_all_example =
    passed_in-enforce_all limiter listed limiter-IsLimiter "aaaaaaaaaaaaaaaaaaaaaaaaaaaaaaaa" 0
      requests no_cells live_no-cells times (refl, (refl, (refl, (refl, (refl, tt)))))

retry_after-window_of_example :
    (1 ≤ retry_after limiter 3001)
    × (retry_after limiter 3001 ≤ 60)
    × (window_of limiter (3001 + retry_after limiter 3001 * 1000) ≡ window_of limiter 3001 + 1)
    × ((earlier : ℕ)
        → 3001 ≤ earlier
        → earlier + 1000 ≤ 3001 + retry_after limiter 3001 * 1000
        → window_of limiter earlier ≡ window_of limiter 3001)
retry_after-window_of_example = retry_after-window_of limiter limiter-IsLimiter 3001
