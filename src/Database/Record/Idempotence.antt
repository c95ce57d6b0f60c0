-- ===== src/Database/Record/Idempotence.antt =====
-- `record_decision` (app/database.py) under redelivery: the first decision wins, and nothing is
-- written twice.
use fraud_detection.Prelude.{
  ℕ, ◌≡◌, refl, String, true, Option, none, some, List, [], ◌∷◌, ◌++◌, arith, Bool-cases, inl, inr,
  str_eq_iff,
}
use text.Mathlib.TextPositions.{eq_refl as str_eq_refl}
use fraud_detection.Prelude.Result.{Result, ok, err}
use fraud_detection.Database.Rows.{
  TransactionDecision, TransactionRecord, RecordOutcome, evaluated, duplicate, MessageProvenance,
  HistoryRecord, RecordResult, Tables,
}
use fraud_detection.Database.Record.{
  RecordError, conflicting_duplicate, find_transaction, same_transaction, history_values,
  same_source, has_source, insert_history, settle, record_decision, get_velocity_aggregates,
}

pub same_transaction_refl : (d : TransactionDecision) → same_transaction d d ≡ true
unfolding same_transaction
same_transaction_refl d = ground (arith, str_eq_refl d.currency, str_eq_refl d.category)

find_transaction-append_new :
    (id : ℕ) (rows : List TransactionRecord) (row : TransactionRecord)
    → find_transaction id rows ≡ none
    → row.decision.transaction_id ≡ id
    → find_transaction id (rows ++ (row ∷ [])) ≡ some row
unfolding find_transaction
find_transaction-append_new id [] row e h = ground arith
find_transaction-append_new id (other ∷ rows) row e h =
    ground (arith, find_transaction-append_new id rows row)

find_transaction-append_old :
    (id : ℕ) (rows : List TransactionRecord) (row found : TransactionRecord)
    → find_transaction id rows ≡ some found
    → find_transaction id (rows ++ (row ∷ [])) ≡ some found
unfolding find_transaction
find_transaction-append_old id [] row found e = cc
find_transaction-append_old id (other ∷ rows) row found e =
    ground (arith, find_transaction-append_old id rows row found)

same_source_refl : (row : HistoryRecord) → same_source row row ≡ true
same_source_refl row = ground (arith, str_eq_refl row.source_topic)

has_source-append :
    (row : HistoryRecord) (rows : List HistoryRecord) (last : HistoryRecord)
    → same_source row last ≡ true
    → has_source row (rows ++ (last ∷ [])) ≡ true
unfolding has_source
has_source-append row [] last h = rw h refl
has_source-append row (other ∷ rows) last h = ground (arith, has_source-append row rows last h)

-- Two audit rows of one Kafka message: the second is not written.
insert_history-again :
    (a b : HistoryRecord) (rows : List HistoryRecord)
    → same_source b a ≡ true
    → has_source b rows ≡ has_source a rows
    → insert_history b (insert_history a rows) ≡ insert_history a rows
unfolding insert_history
insert_history-again a b rows same has = elim (Bool-cases (has_source a rows)) [
  | inl old ↦ rw (old, has, old) refl
  | inr new ↦ rw (new, has_source-append b rows a same) refl
]

-- rows of one source are found together
has_source-eq :
    (a b : HistoryRecord) (rows : List HistoryRecord)
    → b.source_topic ≡ a.source_topic
    → b.source_partition ≡ a.source_partition
    → b.source_offset ≡ a.source_offset
    → has_source b rows ≡ has_source a rows
unfolding has_source
has_source-eq a b [] t p o = refl
has_source-eq a b (row ∷ rows) t p o = rw (t, p, o, has_source-eq a b rows t p o) refl

same_transaction_trans :
    (a b c : TransactionDecision)
    → same_transaction a b ≡ true
    → same_transaction b c ≡ true
    → same_transaction a c ≡ true
unfolding same_transaction
same_transaction_trans a b c h k = ground (
  arith,
  str_eq_iff a.currency b.currency,
  str_eq_iff b.currency c.currency,
  str_eq_iff a.currency c.currency,
  str_eq_iff a.category b.category,
  str_eq_iff b.category c.category,
  str_eq_iff a.category c.category,
)

abbrev pub returned : RecordOutcome → TransactionDecision → Result RecordError RecordResult
returned outcome d = ok (record { outcome = outcome; decision = d })

first_eq :
    (d : TransactionDecision) (r : RecordResult) → returned duplicate d ≡ ok r → d ≡ r.decision
first_eq d r e = cc

conflict_absurd :
    (r : RecordResult)
    → ¬ (◌≡◌ {A = Result RecordError RecordResult} (err conflicting_duplicate) (ok r))
conflict_absurd r e = cc

-- the second write of one message, after `existing` was found for the first
settle-again :
    (now later : ℕ) (existing : Option TransactionRecord) (d d' : TransactionDecision)
    (p : MessageProvenance) (tables : Tables) (r : RecordResult)
    → find_transaction d.transaction_id tables.transactions ≡ existing
    → (settle now existing d p tables).0 ≡ ok r
    → d'.transaction_id ≡ d.transaction_id
    → same_transaction d d' ≡ true
    → record_decision later d' p (settle now existing d p tables).1
      ≡ (returned duplicate r.decision, (settle now existing d p tables).1)
unfolding record_decision
settle-again now later none d d' p tables r found e id_eq same =
    let new : TransactionRecord = record { decision = d; created_at = now } in
    let first : d ≡ r.decision = cc in
    rw
      (
        id_eq,
        find_transaction-append_new d.transaction_id tables.transactions new found refl,
        same,
        insert_history-again (history_values d p evaluated d.correlation_id)
            (history_values d p duplicate d'.correlation_id) tables.history
            (same_source_refl (history_values d p duplicate d'.correlation_id)) refl,
        ← first,
      )
      refl
settle-again now later (some row) d d' p tables r found e id_eq same =
    elim (Bool-cases (same_transaction row.decision d)) [
      | inl agrees ↦
          let first : row.decision ≡ r.decision = first_eq row.decision r (rw agrees at e) in
          rw
            (
              agrees,
              id_eq,
              found,
              same_transaction_trans row.decision d d' agrees same,
              insert_history-again (history_values row.decision p duplicate d.correlation_id)
                  (history_values row.decision p duplicate d'.correlation_id) tables.history
                  (same_source_refl (history_values row.decision p duplicate d'.correlation_id))
                  refl,
              ← first,
            )
            refl
      | inr differs ↦ absurd (conflict_absurd r (rw differs at e))
    ]

-- Redelivery of a recorded message changes nothing: whatever scores the second evaluation came to,
-- and whenever it runs, the result is `DUPLICATE` with the first decision, and no row is written.
pub record_decision-again :
    (now later : ℕ) (d d' : TransactionDecision) (p : MessageProvenance) (tables : Tables)
    (r : RecordResult)
    → (record_decision now d p tables).0 ≡ ok r
    → d'.transaction_id ≡ d.transaction_id
    → same_transaction d d' ≡ true
    → record_decision later d' p (record_decision now d p tables).1
      ≡ (returned duplicate r.decision, (record_decision now d p tables).1)
unfolding record_decision
record_decision-again now later d d' p tables r e id_eq same =
    unfold record_decision in
    settle-again now later (find_transaction d.transaction_id tables.transactions) d d' p tables r
      refl e id_eq same

settle-find :
    (now : ℕ) (existing : Option TransactionRecord) (id : ℕ) (d : TransactionDecision)
    (p : MessageProvenance) (tables : Tables) (row : TransactionRecord)
    → find_transaction id tables.transactions ≡ some row
    → find_transaction id (settle now existing d p tables).1.transactions ≡ some row
settle-find now none id d p tables row e =
    find_transaction-append_old id tables.transactions (record { decision = d; created_at = now })
      row e
settle-find now (some old) id d p tables row e =
    elim (Bool-cases (same_transaction old.decision d)) [
      | inl agrees ↦ rw agrees e
      | inr differs ↦ rw differs e
    ]

-- The first decision wins: a stored row is never replaced or changed, whatever is recorded later.
pub record_decision-keeps :
    (now id : ℕ) (d : TransactionDecision) (p : MessageProvenance) (tables : Tables)
    (row : TransactionRecord)
    → find_transaction id tables.transactions ≡ some row
    → find_transaction id (record_decision now d p tables).1.transactions ≡ some row
unfolding record_decision
record_decision-keeps now id d p tables row e =
    settle-find now (find_transaction d.transaction_id tables.transactions) id d p tables row e

module _ (user_id window_start window_end id : ℕ) (currency : String) where
  abbrev pub aggregates : List TransactionRecord → ℕ × ℕ
  aggregates = get_velocity_aggregates user_id window_start window_end id currency

  aggregates-append :
      (rows : List TransactionRecord) (row : TransactionRecord)
      → row.decision.transaction_id ≡ id
      → aggregates (rows ++ (row ∷ [])) ≡ aggregates rows
  unfolding get_velocity_aggregates
  aggregates-append [] row h = ground arith
  aggregates-append (other ∷ rows) row h = rw (aggregates-append rows row h) refl

  settle-aggregates :
      (now : ℕ) (existing : Option TransactionRecord) (d : TransactionDecision)
      (p : MessageProvenance) (tables : Tables)
      → d.transaction_id ≡ id
      → aggregates (settle now existing d p tables).1.transactions ≡ aggregates tables.transactions
  settle-aggregates now none d p tables h =
      aggregates-append tables.transactions (record { decision = d; created_at = now }) h
  settle-aggregates now (some old) d p tables h =
      elim (Bool-cases (same_transaction old.decision d)) [
        | inl agrees ↦ rw agrees refl
        | inr differs ↦ rw differs refl
      ]

  -- A message does not count itself: recording a transaction leaves the velocity that is computed for the
  -- same transaction id as it was, so a redelivery sees the velocity of the first delivery.
  pub velocity-record :
      (now : ℕ) (d : TransactionDecision) (p : MessageProvenance) (tables : Tables)
      → d.transaction_id ≡ id
      → aggregates (record_decision now d p tables).1.transactions ≡ aggregates tables.transactions
  unfolding record_decision
  velocity-record now d p tables h =
      settle-aggregates now (find_transaction d.transaction_id tables.transactions) d p tables h
