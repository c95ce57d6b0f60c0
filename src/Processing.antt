-- ===== src/Processing.antt =====
-- app/processing.py: event in, stored decision out.
pub mod Redelivery
pub mod Examples
use fraud_detection.Prelude.{ℕ, ◌+◌, ◌-◌, ◌*◌, String, Bool, Option, none, some, ltb, if◌then◌else◌}
use Prim.Native.String.{◌++◌ as append}
use fraud_detection.Prelude.Result.{Result, ok, err, ◌>>=◌}
use fraud_detection.Errors.{
  Raised, service, library, rule_evaluation_error, conflicting_duplicate_error, other_error,
}
use fraud_detection.Events.{TransactionCreated, EventCodec, parse_transaction_event}
use fraud_detection.Rules.Numbers.{Numbers}
use fraud_detection.Rules.Json.{Fields, end}
use fraud_detection.Rules.Operators.{EvaluationError}
use fraud_detection.Rules.Context.{Enrichment, EvaluationContext, dump_enrichment}
use fraud_detection.Rules.RuleSet.{Assessment, is_fraud, evaluate_rule_set}
use fraud_detection.Database.Rows.{
  TransactionDecision, TransactionRecord, MessageProvenance, RecordResult, Tables,
}
use fraud_detection.Database.Record.{
  RecordError, conflicting_duplicate, record_decision, get_velocity_aggregates,
}
use fraud_detection.Database.RuleSets.{RuleSet}

-- What Python and pydantic do here: `Decimal` of an amount in cents, `str` of an integer, and an
-- enrichment as JSON text.
pub record Formats (N : Numbers) : Type 0 where
  pub cents : ℕ → N.Decimal
  pub show : ℕ → String
  pub enrichment_json : Enrichment N → String

pub record Score : Type 0 where
  pub assessment : Assessment
  pub prior_count : ℕ
  pub prior_amount : ℕ

-- microseconds in a second
abbrev pub microseconds : ℕ
microseconds = 1000000

-- `transaction_id or UUID(int=0)`
abbrev pub excluded : Option ℕ → ℕ
excluded none = 0
excluded (some id) = id

abbrev pub scored : ℕ × ℕ → Result EvaluationError Assessment → Result Raised Score
scored velocity (err e) = err (service rule_evaluation_error)
scored velocity (ok assessment) =
    ok (record { assessment = assessment; prior_count = velocity.0; prior_amount = velocity.1 })

abbrev pub as_raised :
    Result RecordError RecordResult × Tables → Result Raised RecordResult × Tables
as_raised (ok result, tables) = (ok result, tables)
as_raised (err conflicting_duplicate, tables) = (err (service conflicting_duplicate_error), tables)

module _ {N : Numbers} where
  -- `RuleSet.label` of app/rules.py
  unfoldable pub label : Formats N → RuleSet N → String
  label formats rule_set = append rule_set.key (append "@v" (formats.show rule_set.version))

  -- `event.enrichment.model_dump(exclude_none=True) if event.enrichment else None`, `or {}`
  abbrev pub enrichment_fields : Option (Enrichment N) → Fields N
  enrichment_fields none = end
  enrichment_fields (some e) = dump_enrichment e

  abbrev pub enrichment_text : Formats N → Option (Enrichment N) → Option String
  enrichment_text formats none = none
  enrichment_text formats (some e) = some (formats.enrichment_json e)

  abbrev pub context_of : Formats N → TransactionCreated N → ℕ × ℕ → EvaluationContext N
  context_of formats event velocity = record {
    amount = formats.cents event.amount;
    currency = event.currency;
    category = event.category;
    prior_count = velocity.0;
    prior_amount = formats.cents velocity.1;
    channel = event.channel;
    country = event.country;
    enrichment = enrichment_fields event.enrichment;
  }

  -- `score_transaction`, of a transaction with the fields of `event`; a window that begins before the
  -- first instant of `datetime` is an `OverflowError`
  unfoldable pub score_transaction :
      Formats N → RuleSet N → Option ℕ → TransactionCreated N → Tables → Result Raised Score
  unfolding get_velocity_aggregates evaluate_rule_set
  score_transaction formats rule_set id event tables =
      let window = rule_set.definition.velocity_window_seconds * microseconds in
      let velocity =
        get_velocity_aggregates event.user_id (event.occurred_at - window) event.occurred_at
          (excluded id) event.currency tables.transactions in
      if ltb event.occurred_at window
      then err (library other_error)
      else scored velocity
          (evaluate_rule_set rule_set.definition (context_of formats event velocity))

  -- the decision of `TransactionProcessor.process`
  abbrev pub decision_for :
      Formats N → RuleSet N → TransactionCreated N → Assessment → TransactionDecision
  decision_for formats rule_set event assessment = record {
    transaction_id = event.transaction_id;
    user_id = event.user_id;
    amount = event.amount;
    currency = event.currency;
    category = event.category;
    occurred_at = event.occurred_at;
    risk_score = assessment.risk_score;
    verdict = assessment.verdict;
    is_fraud = is_fraud assessment;
    triggered_rules = assessment.triggered_rules;
    rules_version = label formats rule_set;
    rules_hash = rule_set.content_hash;
    correlation_id = event.correlation_id;
    channel = event.channel;
    country = event.country;
    enrichment = enrichment_text formats event.enrichment;
  }

  abbrev pub record_score :
      Formats N
      → ℕ
      → RuleSet N
      → TransactionCreated N
      → MessageProvenance
      → Tables
      → Result Raised Score
      → Result Raised RecordResult × Tables
  record_score formats now rule_set event provenance tables (err e) = (err e, tables)
  record_score formats now rule_set event provenance tables (ok score) =
      as_raised (
        record_decision now (decision_for formats rule_set event score.assessment) provenance
          tables)

  abbrev pub process_event :
      Formats N
      → ℕ
      → TransactionCreated N
      → MessageProvenance
      → Tables
      → Result Raised (RuleSet N)
      → Result Raised RecordResult × Tables
  process_event formats now event provenance tables (err e) = (err e, tables)
  process_event formats now event provenance tables (ok rule_set) =
      record_score formats now rule_set event provenance tables
        (score_transaction formats rule_set (some event.transaction_id) event tables)

  abbrev pub process_parsed :
      Formats N
      → ℕ
      → MessageProvenance
      → Tables
      → Result Raised (RuleSet N)
      → Result Raised (TransactionCreated N)
      → Result Raised RecordResult × Tables
  process_parsed formats now provenance tables active (err e) = (err e, tables)
  process_parsed formats now provenance tables active (ok event) =
      process_event formats now event provenance tables active

  -- `TransactionProcessor.process`; `active` is what `get_active` returns or raises
  unfoldable pub process :
      EventCodec N
      → Formats N
      → ℕ
      → Option String
      → MessageProvenance
      → Tables
      → Result Raised (RuleSet N)
      → Result Raised RecordResult × Tables
  unfolding parse_transaction_event score_transaction label
  process codec formats now value provenance tables active =
      process_parsed formats now provenance tables active (parse_transaction_event codec value)
