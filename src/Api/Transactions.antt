-- ===== src/Api/Transactions.antt =====
-- The routes of app/api.py that read decisions, and the dry run of a hypothetical transaction.
pub mod DryRun
use fraud_detection.Prelude.{
  ℕ, ◌+◌, String, Bool, true, false, Option, none, some, List, [], if◌then◌else◌,
}
use fraud_detection.Prelude.Result.{Result, ok, err, ◌>>=◌}
use fraud_detection.Errors.{Raised, service, library, transaction_not_found_error, connection_error}
use fraud_detection.Events.{TransactionCreated}
use fraud_detection.Rules.Numbers.{Numbers}
use fraud_detection.Rules.Context.{Enrichment}
use fraud_detection.Rules.RuleSet.{RuleSetCodec, Verdict, Assessment, is_fraud}
use fraud_detection.Database.Rows.{TransactionRecord, Tables}
use fraud_detection.Database.Record.{find_transaction}
use fraud_detection.Database.Paging.{
  TransactionFilters, PageCursor, PageError, list_transactions, page_size_ok,
}
use fraud_detection.Database.Paging.Cursor.{CursorCodec, CursorError, encode, decode}
use fraud_detection.Database.RuleSets.{
  RuleSet, RuleSetVersionRecord, RuleSetError, get_latest_rule_set,
}
use fraud_detection.Cache.{Stores}
use fraud_detection.Processing.{Formats, Score, score_transaction, label}
use fraud_detection.Api.Responses.{RouteError, raised, http_exception, request_validation_error}
use fraud_detection.Api.RuleSets.{asked}

-- the database of the decisions, if it answers
abbrev pub read_tables : {A : Type 0} → Bool → Result RouteError A → Result RouteError A
read_tables true result = result
read_tables false result = err (raised (library connection_error))

abbrev pub or_not_found : Option TransactionRecord → Result RouteError TransactionRecord
or_not_found none = err (raised (service transaction_not_found_error))
or_not_found (some row) = ok row

-- `get_transaction_by_id`, with `get_transaction` of app/database.py
unfoldable pub get_transaction_by_id :
    Bool → ℕ → List TransactionRecord → Result RouteError TransactionRecord
unfolding find_transaction
get_transaction_by_id database_up id table =
    read_tables database_up (or_not_found (find_transaction id table))

pub record TransactionPage : Type 0 where
  pub data_rows : List TransactionRecord
  pub limit : ℕ
  pub next_cursor : Option String

abbrev pub encoded : CursorCodec → Option PageCursor → Option String
encoded codec none = none
encoded codec (some cursor) = some (encode codec cursor)

-- `PageCursor.decode(cursor) if cursor else None`, of a query that may leave it out or empty
abbrev pub page_cursor : CursorCodec → Option String → Result RouteError (Option PageCursor)
page_cursor codec none = ok none
page_cursor codec (some String.[]) = ok none
page_cursor codec (some (String.◌∷◌ c rest)) = elim (decode codec (String.◌∷◌ c rest)) [
  | err CursorError.malformed ↦ err (http_exception 400 [])
  | ok cursor ↦ ok (some cursor)
]

abbrev pub transaction_page :
    CursorCodec
    → ℕ
    → Result PageError (List TransactionRecord × Option PageCursor)
    → Result RouteError TransactionPage
transaction_page codec limit (err e) = err request_validation_error
transaction_page codec limit (ok (rows, next)) =
    ok (record { data_rows = rows; limit = limit; next_cursor = encoded codec next })

-- `list_transaction_decisions`
unfoldable pub list_transaction_decisions :
    CursorCodec
    → Bool
    → TransactionFilters
    → ℕ
    → Option String
    → List TransactionRecord
    → Result RouteError TransactionPage
unfolding list_transactions page_size_ok encode decode
list_transaction_decisions codec database_up filters limit cursor table =
    if page_size_ok limit
    then (do
      position ← page_cursor codec cursor
      read_tables database_up
          (transaction_page codec limit (list_transactions filters limit position table)))
    else err request_validation_error

-- `EvaluateRequest`, its amount in cents
pub record EvaluateRequest (N : Numbers) : Type 0 where
  pub user_id : ℕ
  pub amount : ℕ
  pub currency : String
  pub category : String
  pub occurred_at : Option ℕ
  pub channel : Option String
  pub country : Option String
  pub enrichment : Option (Enrichment N)
  pub transaction_id : Option ℕ

-- `EvaluateResponse`
pub record EvaluateResponse : Type 0 where
  pub rule_set : String
  pub risk_score : ℕ
  pub verdict : Verdict
  pub is_fraud : Bool
  pub triggered_rules : List String
  pub window_seconds : ℕ
  pub prior_count : ℕ
  pub prior_amount : ℕ

-- `body.occurred_at or datetime.now(UTC)`
abbrev pub or_now : ℕ → Option ℕ → ℕ
or_now now none = now
or_now now (some at) = at

module _ {N : Numbers} where
  -- The arguments of `score_transaction`; it does not read the two of an event that a request lacks.
  abbrev pub hypothetical : ℕ → EvaluateRequest N → TransactionCreated N
  hypothetical now body = record {
    transaction_id = 0;
    user_id = body.user_id;
    amount = body.amount;
    currency = body.currency;
    category = body.category;
    occurred_at = or_now now body.occurred_at;
    channel = body.channel;
    country = body.country;
    correlation_id = none;
    enrichment = body.enrichment;
  }

  abbrev pub evaluated :
      Formats N → RuleSet N → Result Raised Score → Result RouteError EvaluateResponse
  evaluated formats rule_set (err e) = err (raised e)
  evaluated formats rule_set (ok score) = ok (record {
    rule_set = label formats rule_set;
    risk_score = score.assessment.risk_score;
    verdict = score.assessment.verdict;
    is_fraud = is_fraud score.assessment;
    triggered_rules = score.assessment.triggered_rules;
    window_seconds = rule_set.definition.velocity_window_seconds;
    prior_count = score.prior_count;
    prior_amount = score.prior_amount;
  })

  -- `evaluate`
  unfoldable pub evaluate_request :
      RuleSetCodec N
      → Formats N
      → ℕ
      → String
      → EvaluateRequest N
      → Stores N
      → Tables
      → Result RouteError EvaluateResponse
  unfolding get_latest_rule_set score_transaction label is_fraud
  evaluate_request codec formats now key body stores tables = do
    rule_set ← asked stores.database_up (get_latest_rule_set codec key stores.rows)
    evaluated formats rule_set
        (score_transaction formats rule_set body.transaction_id (hypothetical now body) tables)
