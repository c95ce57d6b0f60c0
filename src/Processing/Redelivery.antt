-- ===== src/Processing/Redelivery.antt =====
-- Redelivery of a message through the whole of `process` (app/processing.py).
use fraud_detection.Prelude.{ℕ, ◌≡◌, refl, ap, String, Option, some}
use fraud_detection.Prelude.Result.{Result, ok, err}
use fraud_detection.Errors.{Raised}
use fraud_detection.Events.{TransactionCreated, EventCodec, parse_transaction_event}
use fraud_detection.Rules.Numbers.{Numbers}
use fraud_detection.Rules.RuleSet.{Assessment}
use fraud_detection.Database.Rows.{MessageProvenance, RecordResult, Tables, duplicate}
use fraud_detection.Database.Record.{
  RecordError, conflicting_duplicate, same_transaction, record_decision,
}
use fraud_detection.Database.Record.Idempotence.{
  returned, same_transaction_refl, record_decision-again,
}
use fraud_detection.Database.RuleSets.{RuleSet}
use fraud_detection.Processing.{
  Formats, Score, as_raised, decision_for, record_score, process_event, score_transaction, process,
}

abbrev pub repeated : RecordResult → Tables → Result Raised RecordResult × Tables
repeated r tables = (ok (record { outcome = duplicate; decision = r.decision }), tables)

as_raised-eq-ok :
    (x : Result RecordError RecordResult × Tables) (r : RecordResult)
    → (as_raised x).0 ≡ ok r
    → (x.0 ≡ ok r) × ((as_raised x).1 ≡ x.1)
as_raised-eq-ok (ok result, tables) r e = let same : result ≡ r = cc in (ap ok same, refl)
as_raised-eq-ok (err conflicting_duplicate, tables) r e = absurd (cc)

module _ {N : Numbers} (formats : Formats N) (event : TransactionCreated N)
    (provenance : MessageProvenance) where
  again :
      (now later : ℕ) (a b : RuleSet N) (x y : Assessment) (tables : Tables) (r : RecordResult)
      → (record_decision now (decision_for formats a event x) provenance tables).0 ≡ ok r
      → record_decision later
          (decision_for formats b event y)
          provenance
          (record_decision now (decision_for formats a event x) provenance tables).1
        ≡ (
          returned duplicate r.decision,
          (record_decision now (decision_for formats a event x) provenance tables).1,
        )
  unfolding same_transaction
  again now later a b x y tables r e =
      record_decision-again now later (decision_for formats a event x)
        (decision_for formats b event y) provenance tables r e refl
        (same_transaction_refl (decision_for formats a event x))

  record_score-again :
      (now later : ℕ) (a b : RuleSet N) (y : Assessment) (tables : Tables) (r : RecordResult)
      (first : Result Raised Score)
      → (record_score formats now a event provenance tables first).0 ≡ ok r
      → as_raised (
          record_decision later
            (decision_for formats b event y)
            provenance
            (record_score formats now a event provenance tables first).1)
        ≡ repeated r (record_score formats now a event provenance tables first).1
  record_score-again now later a b y tables r (err e) h = absurd (cc)
  record_score-again now later a b y tables r (ok x) h =
      let (ended, same) =
        as_raised-eq-ok
          (record_decision now (decision_for formats a event x.assessment) provenance tables) r h in
      rw same (ap as_raised (again now later a b x.assessment y tables r ended))

  process_event-again :
      (now later : ℕ) (b : RuleSet N) (y : Assessment) (tables : Tables) (r : RecordResult)
      (active : Result Raised (RuleSet N))
      → (process_event formats now event provenance tables active).0 ≡ ok r
      → as_raised (
          record_decision later
            (decision_for formats b event y)
            provenance
            (process_event formats now event provenance tables active).1)
        ≡ repeated r (process_event formats now event provenance tables active).1
  process_event-again now later b y tables r (err e) h = absurd (cc)
  process_event-again now later b y tables r (ok a) h =
      record_score-again now later a b y tables r
        (score_transaction formats a (some event.transaction_id) event tables) h

  -- Processing a message a second time changes nothing: if the first delivery was recorded, then a later
  -- one, under whatever rule set is active by then, returns `DUPLICATE` with the decision that the first
  -- returned and leaves the tables as they are, provided that the payload is scored and not refused.
  pub process-again :
      (codec : EventCodec N) (now later : ℕ) (value : Option String) (tables : Tables)
      (r : RecordResult) (active : Result Raised (RuleSet N)) (b : RuleSet N) (s : Score)
      → parse_transaction_event codec value ≡ ok event
      → (process codec formats now value provenance tables active).0 ≡ ok r
      → score_transaction formats b
          (some event.transaction_id)
          event
          (process codec formats now value provenance tables active).1
        ≡ ok s
      → process codec formats later value provenance
          (process codec formats now value provenance tables active).1
          (ok b)
        ≡ repeated r (process codec formats now value provenance tables active).1
  unfolding process
  process-again codec now later value tables r active b s parsed first scores =
      let first' : (process_event formats now event provenance tables active).0 ≡ ok r =
        rw parsed at first in
      let scores' : score_transaction formats b (some event.transaction_id) event
            (process_event formats now event provenance tables active).1
          ≡ ok s =
        rw parsed at scores in
      rw (parsed, scores') (process_event-again now later b s.assessment tables r active first')
