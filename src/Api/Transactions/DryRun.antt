-- ===== src/Api/Transactions/DryRun.antt =====
-- The dry run of app/api.py against what the worker does with the same transaction.
use fraud_detection.Prelude.{ℕ, ◌≡◌, refl, String, true, Option, some}
use fraud_detection.Prelude.Result.{Result, ok, err}
use fraud_detection.Errors.{Raised}
use fraud_detection.Events.{TransactionCreated, EventCodec, parse_transaction_event}
use fraud_detection.Rules.Numbers.{Numbers}
use fraud_detection.Rules.RuleSet.{RuleSetCodec}
use fraud_detection.Database.Rows.{TransactionDecision, MessageProvenance, RecordResult, Tables}
use fraud_detection.Database.Record.{record_decision}
use fraud_detection.Database.RuleSets.{RuleSet, get_latest_rule_set}
use fraud_detection.Cache.{Stores}
use fraud_detection.Processing.{
  Formats, Score, as_raised, enrichment_text, record_score, score_transaction, process,
}
use fraud_detection.Api.Responses.{RouteError, raised, http_exception, request_validation_error}
use fraud_detection.Api.Transactions.{
  EvaluateRequest, EvaluateResponse, evaluated, evaluate_request,
}

module _ {N : Numbers} (formats : Formats N) (event : TransactionCreated N)
    (rule_set : RuleSet N) where
  -- the request for a dry run of an event's transaction
  abbrev pub request_of : EvaluateRequest N
  request_of = record {
    user_id = event.user_id;
    amount = event.amount;
    currency = event.currency;
    category = event.category;
    occurred_at = some event.occurred_at;
    channel = event.channel;
    country = event.country;
    enrichment = event.enrichment;
    transaction_id = some event.transaction_id;
  }

  -- the decision on the event, as the response says
  abbrev pub foretold : EvaluateResponse → TransactionDecision
  foretold response = record {
    transaction_id = event.transaction_id;
    user_id = event.user_id;
    amount = event.amount;
    currency = event.currency;
    category = event.category;
    occurred_at = event.occurred_at;
    risk_score = response.risk_score;
    verdict = response.verdict;
    is_fraud = response.is_fraud;
    triggered_rules = response.triggered_rules;
    rules_version = response.rule_set;
    rules_hash = rule_set.content_hash;
    correlation_id = event.correlation_id;
    channel = event.channel;
    country = event.country;
    enrichment = enrichment_text formats event.enrichment;
  }

  module _ (later : ℕ) (provenance : MessageProvenance) (tables : Tables) where
    -- The worker's outcome is what the dry run's says: it records the decision of the response, or fails
    -- with the same error and changes nothing.
    abbrev pub IsForetold :
        Result RouteError EvaluateResponse → Result Raised RecordResult × Tables → Type 0
    IsForetold (ok response) outcome =
        outcome ≡ as_raised (record_decision later (foretold response) provenance tables)
    IsForetold (err (raised e)) outcome = outcome ≡ (err e, tables)
    IsForetold (err request_validation_error) outcome = ⊥
    IsForetold (err (http_exception status headers)) outcome = ⊥

    scored-IsForetold :
        (score : Result Raised Score)
        → IsForetold
            (evaluated formats rule_set score)
            (record_score formats later rule_set event provenance tables score)
    scored-IsForetold (err e) = refl
    scored-IsForetold (ok score) = refl

    -- The dry run is right: on the rule set that is active and the decisions that are stored, the worker
    -- does with a transaction what the dry run of its fields says, errors included.
    pub evaluate_request-process :
        (codec : RuleSetCodec N) (events : EventCodec N) (now : ℕ) (key : String)
        (value : Option String) (stores : Stores N)
        → get_latest_rule_set codec key stores.rows ≡ ok rule_set
        → stores.database_up ≡ true
        → parse_transaction_event events value ≡ ok event
        → IsForetold
            (evaluate_request codec formats now key request_of stores tables)
            (process events formats later value provenance tables (ok rule_set))
    unfolding evaluate_request process score_transaction
    evaluate_request-process codec events now key value stores latest up parsed =
        rw (up, latest, parsed)
          (scored-IsForetold
            (score_transaction formats rule_set (some event.transaction_id) event tables))
