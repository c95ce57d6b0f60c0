-- ===== src/Database/Summary.antt =====
-- `summarize_transactions` of app/database.py.
use fraud_detection.Prelude.{
  ℕ, ◌+◌, ◌≡◌, String, List, [], ◌∷◌, leb, str_eq, arith, Bool-cases, inl, inr, if◌then◌else◌,
}
use fraud_detection.Database.Rows.{TransactionRecord}

-- the counts of `group_by(TransactionRecord.category)`
abbrev pub counted_in : String → List (String × ℕ) → List (String × ℕ)
counted_in category [] = (category, 1) ∷ []
counted_in category ((other, n) ∷ rest) =
    if str_eq other category then (other, n + 1) ∷ rest else (other, n) ∷ counted_in category rest

pub record Summary : Type 0 where
  pub total : ℕ
  pub fraud : ℕ
  pub by_category : List (String × ℕ)

abbrev empty_summary : Summary
empty_summary = record { total = 0; fraud = 0; by_category = [] }

abbrev with_row : TransactionRecord → Summary → Summary
with_row row rest = record {
  total = rest.total + 1;
  fraud = if row.decision.is_fraud then rest.fraud + 1 else rest.fraud;
  by_category = counted_in row.decision.category rest.by_category;
}

-- `summarize_transactions`: the rows with `created_at >= since`
unfoldable pub summarize_transactions : ℕ → List TransactionRecord → Summary
summarize_transactions since [] = empty_summary
summarize_transactions since (row ∷ rows) =
    let rest = summarize_transactions since rows in
    if leb since row.created_at then with_row row rest else rest

abbrev pub sum_of : List (String × ℕ) → ℕ
sum_of [] = 0
sum_of ((category, n) ∷ rest) = n + sum_of rest

sum_of-counted_in :
    (category : String) (counts : List (String × ℕ))
    → sum_of (counted_in category counts) ≡ sum_of counts + 1
sum_of-counted_in category [] = omega arith
sum_of-counted_in category ((other, n) ∷ rest) = elim (Bool-cases (str_eq other category)) [
  | inl same ↦ rw same (omega arith)
  | inr differs ↦ rw differs (omega (arith, sum_of-counted_in category rest))
]

-- The summary accounts for every decision: the counts of the categories add up to the total.
pub summarize_transactions-by_category :
    (since : ℕ) (rows : List TransactionRecord)
    → sum_of (summarize_transactions since rows).by_category
      ≡ (summarize_transactions since rows).total
unfolding summarize_transactions
summarize_transactions-by_category since [] = omega arith
summarize_transactions-by_category since (row ∷ rows) =
    let ih = summarize_transactions-by_category since rows in
    elim (Bool-cases (leb since row.created_at)) [
      | inl counts ↦ rw counts (
          omega (
            arith,
            ih,
            sum_of-counted_in row.decision.category (summarize_transactions since rows).by_category,
          ))
      | inr early ↦ rw early ih
    ]
