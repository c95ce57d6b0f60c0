-- ===== src/Database/Record/Conflicts.antt =====
-- When app/database.py refuses a decision on a transaction that is stored.
use fraud_detection.Prelude.{
  ℕ, ◌≡◌, refl, sym, ◌∙◌, subst, ◌==◌, ==_iff, ◌&&◌, Bool, and-intro, str_eq, true, Option, none,
  some, arith, Bool-cases, inl, inr, str_eq_iff,
}
use fraud_detection.Prelude.Result.{Result, ok, err}
use fraud_detection.Database.Rows.{
  TransactionDecision, TransactionRecord, MessageProvenance, RecordResult, Tables,
}
use fraud_detection.Database.Record.{
  RecordError, conflicting_duplicate, find_transaction, same_transaction, settle, record_decision,
}
use mathlib.Core.Bool.{true≢false}

-- The data of a transaction that a repetition must agree on.
pub record HasSameData (left right : TransactionDecision) : Type 0 where
  pub user_eq : left.user_id ≡ right.user_id
  pub amount_eq : left.amount ≡ right.amount
  pub currency_eq : left.currency ≡ right.currency
  pub category_eq : left.category ≡ right.category
  pub occurred_eq : left.occurred_at ≡ right.occurred_at

both_true : (a b : Bool) → (a && b) ≡ true → (a ≡ true) × (b ≡ true)
both_true a b h = ground arith

same_transaction-HasSameData :
    (left right : TransactionDecision) → same_transaction left right ≡ true → HasSameData left right
unfolding same_transaction
same_transaction-HasSameData left right e =
    let (user, e1) = both_true (left.user_id == right.user_id) _ e in
    let (amount, e2) = both_true (left.amount == right.amount) _ e1 in
    let (currency, e3) = both_true (str_eq left.currency right.currency) _ e2 in
    let (category, occurred) = both_true (str_eq left.category right.category) _ e3 in
    record {
      user_eq = (==_iff left.user_id right.user_id).0 user;
      amount_eq = (==_iff left.amount right.amount).0 amount;
      currency_eq = (str_eq_iff left.currency right.currency).0 currency;
      category_eq = (str_eq_iff left.category right.category).0 category;
      occurred_eq = (==_iff left.occurred_at right.occurred_at).0 occurred;
    }

HasSameData-same_transaction :
    (left right : TransactionDecision) → HasSameData left right → same_transaction left right ≡ true
unfolding same_transaction
HasSameData-same_transaction left right h =
    and-intro ((==_iff left.user_id right.user_id).1 h.user_eq) (
      and-intro ((==_iff left.amount right.amount).1 h.amount_eq) (
        and-intro ((str_eq_iff left.currency right.currency).1 h.currency_eq) (
          and-intro ((str_eq_iff left.category right.category).1 h.category_eq)
            ((==_iff left.occurred_at right.occurred_at).1 h.occurred_eq))))

-- Another transaction is stored under the id.
abbrev pub IsConflicting : TransactionDecision → Tables → Type 0
IsConflicting d tables =
    (row : TransactionRecord) × (find_transaction d.transaction_id tables.transactions ≡ some row)
    × ¬ HasSameData row.decision d

-- What the result and the tables after it say.
abbrev pub IsSettled :
    TransactionDecision → Tables → Result RecordError RecordResult × Tables → Type 0
IsSettled d tables (err e, after) =
    (e ≡ conflicting_duplicate) × (IsConflicting d tables × (after ≡ tables))
IsSettled d tables (ok result, after) = ¬ IsConflicting d tables × HasSameData result.decision d

settle-IsSettled :
    (now : ℕ) (existing : Option TransactionRecord) (d : TransactionDecision)
    (p : MessageProvenance) (tables : Tables)
    → find_transaction d.transaction_id tables.transactions ≡ existing
    → IsSettled d tables (settle now existing d p tables)
settle-IsSettled now none d p tables found = (
  λ (row, e, differs). absurd (cc),
  record {
    user_eq = refl;
    amount_eq = refl;
    currency_eq = refl;
    category_eq = refl;
    occurred_eq = refl;
  },
)
settle-IsSettled now (some row) d p tables found =
    elim (Bool-cases (same_transaction row.decision d)) [
      | inl agrees ↦
          let same = same_transaction-HasSameData row.decision d agrees in
          rw agrees (
            λ (other, e, differs).
                let is_row : other ≡ row = cc in
                differs (subst (λ r. HasSameData r.decision d) (sym is_row) same),
            same,
          )
      | inr differs ↦ rw differs (
        refl,
        (
          (
            row,
            found,
            λ same. true≢false (sym (HasSameData-same_transaction row.decision d same) ∙ differs),
          ),
          refl,
        ),
      )
    ]

-- A decision is refused exactly when its id is stored with another user, amount, currency, category or
-- instant, and then both tables are as they were; else the decision that is returned agrees with it on
-- these. Its channel, country and enrichment are not compared.
pub record_decision-IsSettled :
    (now : ℕ) (d : TransactionDecision) (p : MessageProvenance) (tables : Tables)
    → IsSettled d tables (record_decision now d p tables)
unfolding record_decision
record_decision-IsSettled now d p tables =
    settle-IsSettled now (find_transaction d.transaction_id tables.transactions) d p tables refl
