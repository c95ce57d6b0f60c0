-- ===== src/Processing/Examples.antt =====
-- app/processing.py: one message, delivered twice.
use fraud_detection.Prelude.{◌≡◌, refl, none, some, [], ◌∷◌}
use fraud_detection.Prelude.Int.{pos}
use fraud_detection.Prelude.Result.{ok}
use fraud_detection.Rules.Evaluate.{evaluate, normalise_literal}
use fraud_detection.Rules.Context.{as_variables}
use fraud_detection.Rules.RuleSet.{Assessment, review}
use fraud_detection.Rules.Examples.{whole, rules}
use fraud_detection.Database.Rows.{MessageProvenance, RecordResult, Tables, evaluated}
use fraud_detection.Database.Record.{record_decision}
use fraud_detection.Database.RuleSets.{RuleSet}
use fraud_detection.Events.Examples.{bought, one_event, bought_parsed}
use fraud_detection.Processing.{Formats, Score, decision_for, score_transaction, process}
use fraud_detection.Processing.Redelivery.{repeated, process-again}

abbrev pub formats : Formats whole
formats = record { cents = λ n. pos n; show = λ n. "1"; enrichment_json = λ e. "{}" }

abbrev pub active : RuleSet whole
active = record {
  key = "default";
  version = 1;
  definition = rules;
  content_hash = "rules";
  description = "first";
  created_by = "ops";
  created_at = 100;
}

abbrev pub delivered : MessageProvenance
delivered = record { topic = "transactions"; partition = 0; offset = 12; timestamp_ms = none }

abbrev pub nothing : Tables
nothing = record { transactions = []; history = [] }

abbrev flagged : Assessment
flagged = record { triggered_rules = "BIG" ∷ []; risk_score = 60; verdict = review }

abbrev first_result : RecordResult
first_result = record { outcome = evaluated; decision = decision_for formats active bought flagged }

abbrev scored_again : Score
scored_again = record { assessment = flagged; prior_count = 0; prior_amount = 0 }

first_delivery :
    (process one_event formats 500 (some "event") delivered nothing (ok active)).0 ≡ ok first_result
unfolding process record_decision evaluate normalise_literal as_variables
first_delivery = refl

second_score :
    score_transaction formats active
      (some 1)
      bought
      (process one_event formats 500 (some "event") delivered nothing (ok active)).1
    ≡ ok scored_again
unfolding process record_decision evaluate normalise_literal as_variables
second_score = refl

process-again_example :
    process one_event formats 900
      (some "event")
      delivered
      (process one_event formats 500 (some "event") delivered nothing (ok active)).1
      (ok active)
    ≡ repeated first_result
        (process one_event formats 500 (some "event") delivered nothing (ok active)).1
process-again_example =
    process-again formats bought delivered one_event 500 900 (some "event") nothing first_result
      (ok active) active scored_again bought_parsed first_delivery second_score
