-- ===== src/Database/Examples.antt =====
-- app/database.py at concrete tables.
use fraud_detection.Prelude.{
  ℕ, ◌+◌, ◌≤◌, ◌≡◌, refl, true, none, some, List, [], ◌∷◌, ◌++◌, arith, length,
}
use fraud_detection.Prelude.Result.{ok, err}
use fraud_detection.Rules.RuleSet.{review}
use fraud_detection.Rules.Examples.{whole, plain_codec, rules}
use fraud_detection.Database.Rows.{
  TransactionDecision, TransactionRecord, evaluated, duplicate, MessageProvenance, Tables,
}
use fraud_detection.Database.Record.{find_transaction, same_transaction, record_decision}
use fraud_detection.Database.Record.Conflicts.{IsSettled, record_decision-IsSettled}
use fraud_detection.Database.Record.Idempotence.{
  returned, record_decision-again, record_decision-keeps,
}
use fraud_detection.Database.Paging.{
  TransactionFilters, page_size_ok, newest_first, where_rows, matches,
}
use fraud_detection.Database.Paging.Order.{HasDistinctIds}
use fraud_detection.Database.Paging.Walk.{walk, wanted_rows, walk-wanted_rows}
use fraud_detection.Database.RuleSets.{
  RuleSetVersionRecord, version_conflict, find_version, current_version, rule_set_from_record,
  get_latest_rule_set, plan_version, commit_version, expected_ok, new_version,
}
use fraud_detection.Database.RuleSets.Versions.{
  Publication, planned, create, create-get_latest_rule_set, create-find_version,
  commit_version-race,
}

abbrev bought : ℕ → ℕ → TransactionDecision
bought id amount = record {
  transaction_id = id;
  user_id = 7;
  amount = amount;
  currency = "ZAR";
  category = "GROCERIES";
  occurred_at = 1000 + id;
  risk_score = 60;
  verdict = review;
  is_fraud = true;
  triggered_rules = "BIG" ∷ [];
  rules_version = "default@v1";
  rules_hash = "rules";
  correlation_id = none;
  channel = none;
  country = none;
  enrichment = none;
}

abbrev message : MessageProvenance
message = record { topic = "transactions"; partition = 0; offset = 12; timestamp_ms = none }

abbrev stored : TransactionRecord
stored = record { decision = bought 1 500; created_at = 2000 }

abbrev later_row : TransactionRecord
later_row = record { decision = bought 2 300; created_at = 2001 }

abbrev one_row : Tables
one_row = record { transactions = stored ∷ []; history = [] }

first_result :
    (record_decision 3000 (bought 2 300) message one_row).0
    ≡ ok (record { outcome = evaluated; decision = bought 2 300 })
unfolding record_decision
first_result = refl

same_bought : same_transaction (bought 2 300) (bought 2 300) ≡ true
unfolding same_transaction
same_bought = refl

stored_found : find_transaction 1 (stored ∷ []) ≡ some stored
unfolding find_transaction
stored_found = refl

record_decision-again_example :
    record_decision 4000
      (bought 2 300)
      message
      (record_decision 3000 (bought 2 300) message one_row).1
    ≡ (returned duplicate (bought 2 300), (record_decision 3000 (bought 2 300) message one_row).1)
record_decision-again_example =
    record_decision-again 3000 4000 (bought 2 300) (bought 2 300) message one_row
      (record { outcome = evaluated; decision = bought 2 300 }) first_result refl same_bought

record_decision-keeps_example :
    find_transaction 1 (record_decision 3000 (bought 2 300) message one_row).1.transactions
    ≡ some stored
record_decision-keeps_example =
    record_decision-keeps 3000 1 (bought 2 300) message one_row stored stored_found

record_decision-IsSettled_example :
    IsSettled (bought 1 999) one_row (record_decision 3000 (bought 1 999) message one_row)
record_decision-IsSettled_example = record_decision-IsSettled 3000 (bought 1 999) message one_row

abbrev every : TransactionFilters
every = record {
  user_id = none;
  category = none;
  is_fraud = none;
  verdict = none;
  occurred_from = none;
  occurred_to = none;
}

abbrev two_rows : List TransactionRecord
two_rows = stored ∷ later_row ∷ []

two_rows-HasDistinctIds : HasDistinctIds two_rows
two_rows-HasDistinctIds = ((λ e. omega (arith, e), tt), (tt, tt))

page_of_one : page_size_ok 1 ≡ true
unfolding page_size_ok
page_of_one = refl

two_wanted : length (wanted_rows every two_rows) ≤ 2
unfolding newest_first where_rows matches
two_wanted = omega arith

walk-wanted_rows_example : walk every 1 two_rows 3 none ≡ wanted_rows every two_rows
walk-wanted_rows_example =
    walk-wanted_rows every two_rows 1 2 two_rows-HasDistinctIds page_of_one two_wanted

abbrev version_one : RuleSetVersionRecord whole
version_one = new_version plain_codec "default" rules "rules" "first" "ops" 0 100

one_current : expected_ok (some 1) (current_version "default" (version_one ∷ [])) ≡ true
unfolding current_version
one_current = refl

one_found : find_version "default" 1 (version_one ∷ []) ≡ some version_one
unfolding find_version
one_found = refl

abbrev second_version : Publication whole
second_version = record {
  definition = rules;
  definition_hash = "rules";
  description = "second";
  created_by = "ops";
  expected_current_version = some 1;
  now = 200;
}

create-get_latest_rule_set_example :
    (get_latest_rule_set plain_codec "default"
        (create plain_codec "default" second_version (version_one ∷ [])).1
      ≡ (create plain_codec "default" second_version (version_one ∷ [])).0)
    × (current_version "default" (create plain_codec "default" second_version (version_one ∷ [])).1
        ≡ current_version "default" (version_one ∷ []) + 1)
create-get_latest_rule_set_example =
    create-get_latest_rule_set plain_codec "default" second_version (version_one ∷ []) one_current

create-find_version_example :
    find_version "default" 1 (create plain_codec "default" second_version (version_one ∷ [])).1
    ≡ some version_one
create-find_version_example =
    create-find_version plain_codec "default" second_version (version_one ∷ []) "default" 1
      version_one one_found

abbrev version_two : RuleSetVersionRecord whole
version_two = new_version plain_codec "default" rules "rules" "second" "ops" 1 200

second_planned : planned plain_codec "default" second_version (version_one ∷ []) ≡ ok version_two
unfolding plan_version
second_planned = refl

commit_version-race_example :
    (commit_version plain_codec
        (planned plain_codec "default" second_version (version_one ∷ []))
        (version_one ∷ [])
      ≡ (rule_set_from_record plain_codec version_two, (version_one ∷ []) ++ (version_two ∷ [])))
    × (commit_version plain_codec
          (planned plain_codec "default" second_version (version_one ∷ []))
          ((version_one ∷ []) ++ (version_two ∷ []))
        ≡ (err version_conflict, (version_one ∷ []) ++ (version_two ∷ [])))
commit_version-race_example =
    commit_version-race plain_codec "default" second_version second_version (version_one ∷ [])
      version_two version_two second_planned second_planned
