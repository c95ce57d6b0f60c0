-- ===== src/Database/Rows.antt =====
-- The rows of `transactions` and `transaction_history`, and the values that are read from them
-- (app/database.py). Ids, texts and instants are numbers, which the code only compares; an instant
-- counts microseconds, and an amount counts cents (`Numeric(18, 2)`).
use fraud_detection.Prelude.{ℕ, String, Bool, Option, List}
use fraud_detection.Rules.RuleSet.{Verdict}

-- `TransactionDecision`; `created_at` is the server's default, which only the stored row has.
pub record TransactionDecision : Type 0 where
  pub transaction_id : ℕ
  pub user_id : ℕ
  pub amount : ℕ
  pub currency : String
  pub category : String
  pub occurred_at : ℕ
  pub risk_score : ℕ
  pub verdict : Verdict
  pub is_fraud : Bool
  pub triggered_rules : List String
  pub rules_version : String
  pub rules_hash : String
  pub correlation_id : Option String
  pub channel : Option String
  pub country : Option String
  pub enrichment : Option String

pub record TransactionRecord : Type 0 where
  pub decision : TransactionDecision
  pub created_at : ℕ

pub data RecordOutcome : Type 0 where
  evaluated duplicate : RecordOutcome

pub record MessageProvenance : Type 0 where
  pub topic : String
  pub partition : ℕ
  pub offset : ℕ
  pub timestamp_ms : Option ℕ

-- The columns of `TransactionHistoryRecord` that `_history_values` sets.
pub record HistoryRecord : Type 0 where
  pub transaction_id : ℕ
  pub outcome : RecordOutcome
  pub user_id : ℕ
  pub amount : ℕ
  pub currency : String
  pub category : String
  pub occurred_at : ℕ
  pub risk_score : ℕ
  pub verdict : Verdict
  pub is_fraud : Bool
  pub triggered_rules : List String
  pub rules_version : String
  pub rules_hash : String
  pub source_topic : String
  pub source_partition : ℕ
  pub source_offset : ℕ
  pub source_timestamp : Option ℕ
  pub correlation_id : Option String

pub record RecordResult : Type 0 where
  pub outcome : RecordOutcome
  pub decision : TransactionDecision

pub record Tables : Type 0 where
  pub transactions : List TransactionRecord
  pub history : List HistoryRecord
