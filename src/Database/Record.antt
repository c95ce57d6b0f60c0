-- ===== src/Database/Record.antt =====
-- `record_decision` and `get_velocity_aggregates` of app/database.py: the idempotent write path.
pub mod Idempotence
pub mod Conflicts
use fraud_detection.Prelude.{
  ℕ, ◌+◌, String, Bool, true, false, Option, none, some, List, [], ◌∷◌, ◌++◌, leb, ◌&&◌, ◌==◌, not,
  str_eq, if◌then◌else◌,
}
use fraud_detection.Prelude.Result.{Result, ok, err}
use fraud_detection.Database.Rows.{
  TransactionDecision, TransactionRecord, RecordOutcome, evaluated, duplicate, MessageProvenance,
  HistoryRecord, RecordResult, Tables,
}

-- `ConflictingDuplicateError`
pub data RecordError : Type 0 where
  conflicting_duplicate : RecordError

-- the row with the primary key
unfoldable pub find_transaction : ℕ → List TransactionRecord → Option TransactionRecord
find_transaction id [] = none
find_transaction id (row ∷ rows) =
    if row.decision.transaction_id == id then some row else find_transaction id rows

-- `_same_transaction`
unfoldable pub same_transaction : TransactionDecision → TransactionDecision → Bool
same_transaction left right =
    left.user_id == right.user_id
    && (left.amount == right.amount
        && (str_eq left.currency right.currency
            && (str_eq left.category right.category && left.occurred_at == right.occurred_at)))

-- `_history_values`
abbrev pub history_values :
    TransactionDecision → MessageProvenance → RecordOutcome → Option String → HistoryRecord
history_values decision provenance outcome correlation_id = record {
  transaction_id = decision.transaction_id;
  outcome = outcome;
  user_id = decision.user_id;
  amount = decision.amount;
  currency = decision.currency;
  category = decision.category;
  occurred_at = decision.occurred_at;
  risk_score = decision.risk_score;
  verdict = decision.verdict;
  is_fraud = decision.is_fraud;
  triggered_rules = decision.triggered_rules;
  rules_version = decision.rules_version;
  rules_hash = decision.rules_hash;
  source_topic = provenance.topic;
  source_partition = provenance.partition;
  source_offset = provenance.offset;
  source_timestamp = provenance.timestamp_ms;
  correlation_id = correlation_id;
}

-- the key of `uq_transaction_history_source`
abbrev pub same_source : HistoryRecord → HistoryRecord → Bool
same_source a b =
    str_eq a.source_topic b.source_topic
    && (a.source_partition == b.source_partition && a.source_offset == b.source_offset)

unfoldable pub has_source : HistoryRecord → List HistoryRecord → Bool
has_source row [] = false
has_source row (other ∷ rows) = if same_source row other then true else has_source row rows

-- `insert ... on_conflict_do_nothing(uq_transaction_history_source)`
unfoldable pub insert_history : HistoryRecord → List HistoryRecord → List HistoryRecord
unfolding has_source
insert_history row rows = if has_source row rows then rows else rows ++ (row ∷ [])

-- What follows the insert of the transaction: `existing` is the row that was there before.
abbrev pub settle :
    ℕ
    → Option TransactionRecord
    → TransactionDecision
    → MessageProvenance
    → Tables
    → Result RecordError RecordResult × Tables
settle now none decision provenance tables = (
  ok (record { outcome = evaluated; decision = decision }),
  record {
    transactions = tables.transactions ++ (record { decision = decision; created_at = now } ∷ []);
    history =
        insert_history (history_values decision provenance evaluated decision.correlation_id)
          tables.history;
  },
)
settle now (some existing) decision provenance tables =
    if not (same_transaction existing.decision decision)
    then (err conflicting_duplicate, tables)
    else (
      ok (record { outcome = duplicate; decision = existing.decision }),
      record {
        transactions = tables.transactions;
        history =
            insert_history
              (history_values existing.decision provenance duplicate decision.correlation_id)
              tables.history;
      },
    )

-- `record_decision`, one database transaction at the instant `now`: a raised error rolls all back.
unfoldable pub record_decision :
    ℕ → TransactionDecision → MessageProvenance → Tables → Result RecordError RecordResult × Tables
unfolding find_transaction same_transaction insert_history
record_decision now decision provenance tables =
    settle now (find_transaction decision.transaction_id tables.transactions) decision provenance
      tables

-- the `where` of `get_velocity_aggregates`
abbrev pub in_window : ℕ → ℕ → ℕ → ℕ → TransactionRecord → Bool
in_window user_id window_start window_end exclude row =
    row.decision.user_id == user_id
    && (leb window_start row.decision.occurred_at
        && (leb row.decision.occurred_at window_end
            && not (row.decision.transaction_id == exclude)))

-- `get_velocity_aggregates`: `count(*)`, and the sum of the amounts in the currency
unfoldable pub get_velocity_aggregates : ℕ → ℕ → ℕ → ℕ → String → List TransactionRecord → ℕ × ℕ
get_velocity_aggregates user_id window_start window_end exclude currency [] = (0, 0)
get_velocity_aggregates user_id window_start window_end exclude currency (row ∷ rows) =
    let (count, total) =
      get_velocity_aggregates user_id window_start window_end exclude currency rows in
    if in_window user_id window_start window_end exclude row
    then (
      count + 1,
      if str_eq row.decision.currency currency then row.decision.amount + total else total,
    )
    else (count, total)
