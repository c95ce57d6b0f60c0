-- ===== src/Database/Paging.antt =====
-- `list_transactions` and its keyset pagination (app/database.py).
pub mod Order
pub mod Walk
pub mod Cursor
use fraud_detection.Prelude.{
  ℕ, ◌+◌, String, Bool, true, false, Option, none, some, List, [], ◌∷◌, ltb, leb, length, take,
  ◌&&◌, ◌||◌, ◌==◌, str_eq, if◌then◌else◌,
}
use fraud_detection.Prelude.Result.{Result, ok, err}
use fraud_detection.Rules.RuleSet.{Verdict, approved, review, rejected}
use fraud_detection.Database.Rows.{TransactionRecord}

abbrev pub max_page_size : ℕ
max_page_size = 100

pub record TransactionFilters : Type 0 where
  pub user_id : Option ℕ
  pub category : Option String
  pub is_fraud : Option Bool
  pub verdict : Option Verdict
  pub occurred_from : Option ℕ
  pub occurred_to : Option ℕ

pub record PageCursor : Type 0 where
  pub occurred_at : ℕ
  pub transaction_id : ℕ

abbrev pub cursor_of : TransactionRecord → PageCursor
cursor_of row = record {
  occurred_at = row.decision.occurred_at;
  transaction_id = row.decision.transaction_id;
}

-- `(a.occurred_at, a.transaction_id) < (b.occurred_at, b.transaction_id)`
abbrev pub precedes : PageCursor → PageCursor → Bool
precedes a b =
    ltb a.occurred_at b.occurred_at
    || (a.occurred_at == b.occurred_at && ltb a.transaction_id b.transaction_id)

-- a condition of the query, which an absent value leaves out
abbrev pub wanted : {A : Type 0} → Option A → (A → Bool) → Bool
wanted none test = true
wanted (some a) test = test a

abbrev pub same_bool : Bool → Bool → Bool
same_bool true b = b
same_bool false true = false
same_bool false false = true

abbrev pub same_verdict : Verdict → Verdict → Bool
same_verdict approved approved = true
same_verdict review review = true
same_verdict rejected rejected = true
same_verdict _ _ = false

unfoldable pub matches : TransactionFilters → TransactionRecord → Bool
matches filters row =
    wanted filters.user_id (λ u. row.decision.user_id == u)
    && (wanted filters.category (λ c. str_eq row.decision.category c)
        && (wanted filters.is_fraud (λ b. same_bool row.decision.is_fraud b)
            && (wanted filters.verdict (λ v. same_verdict row.decision.verdict v)
                && (wanted filters.occurred_from (λ t. leb t row.decision.occurred_at)
                    && wanted filters.occurred_to (λ t. ltb row.decision.occurred_at t)))))

-- the row-value comparison with the cursor
unfoldable pub after_cursor : Option PageCursor → TransactionRecord → Bool
after_cursor cursor row = wanted cursor (λ c. precedes (cursor_of row) c)

unfoldable pub where_rows :
    (TransactionRecord → Bool) → List TransactionRecord → List TransactionRecord
where_rows p [] = []
where_rows p (row ∷ rows) = let rest = where_rows p rows in if p row then row ∷ rest else rest

-- `order_by(occurred_at.desc(), transaction_id.desc())`
unfoldable pub insert_row : TransactionRecord → List TransactionRecord → List TransactionRecord
insert_row row [] = row ∷ []
insert_row row (other ∷ rows) =
    let rest = insert_row row rows in
    if precedes (cursor_of other) (cursor_of row) then row ∷ other ∷ rows else other ∷ rest

unfoldable pub newest_first : List TransactionRecord → List TransactionRecord
unfolding insert_row
newest_first [] = []
newest_first (row ∷ rows) = insert_row row (newest_first rows)

-- the cursor of the last row
unfoldable pub last_cursor : List TransactionRecord → Option PageCursor
last_cursor [] = none
last_cursor (row ∷ []) = some (cursor_of row)
last_cursor (row ∷ other ∷ rows) = last_cursor (other ∷ rows)

pub data PageError : Type 0 where
  bad_limit bad_before_version : PageError

-- `_check_page_size`
unfoldable pub page_size_ok : ℕ → Bool
page_size_ok limit = leb 1 limit && leb limit max_page_size

-- the page that the fetched rows make, one row more than the limit if another page exists
unfoldable pub page_of : ℕ → List TransactionRecord → List TransactionRecord × Option PageCursor
unfolding last_cursor
page_of limit rows =
    if ltb limit (length rows)
    then (take limit rows, last_cursor (take limit rows))
    else (rows, none)

-- `list_transactions`
unfoldable pub list_transactions :
    TransactionFilters
    → ℕ
    → Option PageCursor
    → List TransactionRecord
    → Result PageError (List TransactionRecord × Option PageCursor)
unfolding page_size_ok page_of newest_first where_rows matches after_cursor
list_transactions filters limit cursor table =
    if page_size_ok limit
    then ok (
        page_of limit (
          take (limit + 1)
            (newest_first (where_rows (after_cursor cursor) (where_rows (matches filters) table)))))
    else err bad_limit
