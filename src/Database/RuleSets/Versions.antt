-- ===== src/Database/RuleSets/Versions.antt =====
-- Publishing a rule set (app/database.py): versions are consecutive and never change, and of two
-- concurrent writers one wins.
use fraud_detection.Prelude.{
  ℕ, ◌+◌, ◌<◌, ◌≡◌, refl, ap, String, true, false, Option, none, some, List, [], ◌∷◌, ◌++◌, ltb,
  ◌==◌, str_eq, arith, Bool-cases, inl, inr, max, ◌&&◌, if◌then◌else◌,
}
use text.Mathlib.TextPositions.{eq_refl as str_eq_refl}
use fraud_detection.Prelude.Result.{Result, ok, err}
use fraud_detection.Rules.Numbers.{Numbers}
use fraud_detection.Rules.RuleSet.{RuleSetDefinition, RuleSetCodec}
use fraud_detection.Database.RuleSets.{
  RuleSetVersionRecord, RuleSet, RuleSetError, version_conflict, latest_row, find_version,
  current_version, insert_version, expected_ok, rule_set_from_record, get_latest_rule_set,
  new_version, plan_version, committed, commit_version, create_rule_set_version,
}

==_refl : (n : ℕ) → (n == n) ≡ true
==_refl n = ground arith

module _ {N : Numbers} where
  latest_row-append :
      (rows : List (RuleSetVersionRecord N)) (row : RuleSetVersionRecord N)
      → current_version row.rule_set_key rows < row.version
      → latest_row row.rule_set_key (rows ++ (row ∷ [])) ≡ some row
  unfolding latest_row current_version
  latest_row-append [] row lt = rw (str_eq_refl row.rule_set_key) refl
  latest_row-append (other ∷ rows) row lt =
      elim (Bool-cases (str_eq other.rule_set_key row.rule_set_key)) [
        | inl same ↦
            let lt' : max other.version (current_version row.rule_set_key rows) < row.version =
              rw same at lt in
            let newer_ : ltb other.version row.version ≡ true = ground (arith, lt') in
            rw (same, latest_row-append rows row (omega (arith, lt')), newer_) refl
        | inr differs ↦ rw differs (latest_row-append rows row (rw differs at lt))
      ]

  find_version-append_old :
      (key : String) (version : ℕ) (rows : List (RuleSetVersionRecord N))
      (row found : RuleSetVersionRecord N)
      → find_version key version rows ≡ some found
      → find_version key version (rows ++ (row ∷ [])) ≡ some found
  unfolding find_version
  find_version-append_old key version [] row found e = cc
  find_version-append_old key version (other ∷ rows) row found e =
      elim (Bool-cases (str_eq other.rule_set_key key && other.version == version)) [
        | inl here ↦ rw here (rw here at e)
        | inr there ↦ rw there (find_version-append_old key version rows row found (rw there at e))
      ]

  find_version-append_new :
      (rows : List (RuleSetVersionRecord N)) (row : RuleSetVersionRecord N)
      → (found : RuleSetVersionRecord N) × (find_version row.rule_set_key row.version
            (rows ++ (row ∷ []))
          ≡ some found)
  unfolding find_version
  find_version-append_new [] row =
      (row, rw (str_eq_refl row.rule_set_key, ==_refl row.version) refl)
  find_version-append_new (other ∷ rows) row =
      elim (Bool-cases
        (str_eq other.rule_set_key row.rule_set_key && other.version == row.version)) [
          | inl here ↦ (other, rw here refl)
          | inr there ↦ let (found, e) = find_version-append_new rows row in (found, rw there e)
        ]

  -- no row of the key has a version above the current one
  find_version-above :
      (key : String) (version : ℕ) (rows : List (RuleSetVersionRecord N))
      → current_version key rows < version
      → find_version key version rows ≡ none
  unfolding find_version current_version
  find_version-above key version [] lt = refl
  find_version-above key version (other ∷ rows) lt =
      elim (Bool-cases (str_eq other.rule_set_key key)) [
        | inl same ↦
            let lt' : max other.version (current_version key rows) < version = rw same at lt in
            let differs : (other.version == version) ≡ false = ground (arith, lt') in
            rw (same, differs) (find_version-above key version rows (omega (arith, lt')))
        | inr differs ↦ rw differs (find_version-above key version rows (rw differs at lt))
      ]

  current_version-append :
      (key : String) (rows : List (RuleSetVersionRecord N)) (row : RuleSetVersionRecord N)
      → current_version key (rows ++ (row ∷ [])) ≡ (
          if str_eq row.rule_set_key key
          then max row.version (current_version key rows)
          else current_version key rows)
  unfolding current_version
  current_version-append key [] row = refl
  current_version-append key (other ∷ rows) row =
      elim (Bool-cases (str_eq other.rule_set_key key)) [
        | inl same ↦ elim (Bool-cases (str_eq row.rule_set_key key)) [
          | inl same' ↦ rw (same, current_version-append key rows row, same') (omega arith)
          | inr differs' ↦ rw (same, current_version-append key rows row, differs') refl
        ]
        | inr differs ↦ rw (differs, current_version-append key rows row) refl
      ]

module _ {N : Numbers} where
  insert_version-free :
      (row : RuleSetVersionRecord N) (rows : List (RuleSetVersionRecord N))
      → find_version row.rule_set_key row.version rows ≡ none
      → insert_version row rows ≡ ok (rows ++ (row ∷ []))
  unfolding insert_version
  insert_version-free row rows e =
      ap (λ o. elim o [ none ↦ ok (rows ++ (row ∷ [])) | some taken ↦ err version_conflict ]) e

  insert_version-taken :
      (row found : RuleSetVersionRecord N) (rows : List (RuleSetVersionRecord N))
      → find_version row.rule_set_key row.version rows ≡ some found
      → insert_version row rows ≡ err version_conflict
  unfolding insert_version
  insert_version-taken row found rows e =
      ap (λ o. elim o [ none ↦ ok (rows ++ (row ∷ [])) | some taken ↦ err version_conflict ]) e

-- A write of `create_rule_set_version`: its arguments.
pub record Publication (N : Numbers) : Type 0 where
  pub definition : RuleSetDefinition N
  pub definition_hash : String
  pub description : String
  pub created_by : String
  pub expected_current_version : Option ℕ
  pub now : ℕ

err_ok :
    {N : Numbers} (row : RuleSetVersionRecord N)
    → ¬ (◌≡◌ {A = Result RuleSetError (RuleSetVersionRecord N)} (err version_conflict) (ok row))
err_ok row e = cc

module _ {N : Numbers} (codec : RuleSetCodec N) (key : String) where
  abbrev pub planned :
      Publication N → List (RuleSetVersionRecord N) → Result RuleSetError (RuleSetVersionRecord N)
  planned p rows =
      plan_version codec key p.definition p.definition_hash p.description p.created_by
        p.expected_current_version p.now rows

  abbrev pub create :
      Publication N
      → List (RuleSetVersionRecord N)
      → Result RuleSetError (RuleSet N) × List (RuleSetVersionRecord N)
  create p rows =
      create_rule_set_version codec key p.definition p.definition_hash p.description p.created_by
        p.expected_current_version p.now rows

  abbrev pub record_of : Publication N → ℕ → RuleSetVersionRecord N
  record_of p current =
      new_version codec key p.definition p.definition_hash p.description p.created_by current p.now

  commit-eq :
      (p : Publication N) (rows : List (RuleSetVersionRecord N))
      → commit_version codec (ok (record_of p (current_version key rows))) rows ≡ (
        rule_set_from_record codec (record_of p (current_version key rows)),
        rows ++ (record_of p (current_version key rows) ∷ []),
      )
  commit-eq p rows =
      let new = record_of p (current_version key rows) in
      ap (committed codec rows new) (
        insert_version-free new rows
          (find_version-above key (current_version key rows + 1) rows (omega arith)))

  pub create-eq :
      (p : Publication N) (rows : List (RuleSetVersionRecord N))
      → expected_ok p.expected_current_version (current_version key rows) ≡ true
      → create p rows ≡ (
        rule_set_from_record codec (record_of p (current_version key rows)),
        rows ++ (record_of p (current_version key rows) ∷ []),
      )
  unfolding create_rule_set_version plan_version
  create-eq p rows fits = rw fits (commit-eq p rows)

  -- Publishing activates: where the expected version is the current one, or none is given, the key's
  -- version grows by one, and the active rule set is then the published one: what
  -- `get_latest_rule_set` gives is what `create_rule_set_version` returned.
  pub create-get_latest_rule_set :
      (p : Publication N) (rows : List (RuleSetVersionRecord N))
      → expected_ok p.expected_current_version (current_version key rows) ≡ true
      → (get_latest_rule_set codec key (create p rows).1 ≡ (create p rows).0)
        × (current_version key (create p rows).1 ≡ current_version key rows + 1)
  unfolding get_latest_rule_set
  create-get_latest_rule_set p rows fits =
      let new = record_of p (current_version key rows) in
      rw
        (
          create-eq p rows fits,
          latest_row-append rows new (omega arith),
          current_version-append key rows new,
          str_eq_refl key,
        )
        (refl, omega arith)

  -- A writer that expects another version than the current one is refused, and the table stays as it was.
  pub create-stale :
      (p : Publication N) (rows : List (RuleSetVersionRecord N))
      → expected_ok p.expected_current_version (current_version key rows) ≡ false
      → create p rows ≡ (err version_conflict, rows)
  unfolding create_rule_set_version plan_version
  create-stale p rows stale = rw stale refl

  -- Versions are immutable: whatever is published, every stored version of every key stays what it was.
  pub create-find_version :
      (p : Publication N) (rows : List (RuleSetVersionRecord N)) (other : String) (version : ℕ)
      (row : RuleSetVersionRecord N)
      → find_version other version rows ≡ some row
      → find_version other version (create p rows).1 ≡ some row
  create-find_version p rows other version row e =
      elim (Bool-cases (expected_ok p.expected_current_version (current_version key rows))) [
        | inl fits ↦ rw (create-eq p rows fits) (
            find_version-append_old other version rows (record_of p (current_version key rows)) row
              e)
        | inr stale ↦ rw (create-stale p rows stale) e
      ]

  planned-eq :
      (p : Publication N) (rows : List (RuleSetVersionRecord N)) (row : RuleSetVersionRecord N)
      → planned p rows ≡ ok row
      → row ≡ record_of p (current_version key rows)
  unfolding plan_version
  planned-eq p rows row e =
      elim (Bool-cases (expected_ok p.expected_current_version (current_version key rows))) [
        | inl fits ↦
            let e' : ◌≡◌ {A = Result RuleSetError (RuleSetVersionRecord N)}
                (ok (record_of p (current_version key rows))) (ok row) =
              rw fits at e in
            cc
        | inr stale ↦ absurd (err_ok row (rw stale at e))
      ]

  -- Of two writers that read the same table and both passed the check of the expected version, one wins:
  -- the first insert succeeds, and the second is refused with a conflict and changes nothing.
  pub commit_version-race :
      (p q : Publication N) (rows : List (RuleSetVersionRecord N)) (a b : RuleSetVersionRecord N)
      → planned p rows ≡ ok a
      → planned q rows ≡ ok b
      → (commit_version codec (planned p rows) rows
          ≡ (rule_set_from_record codec a, rows ++ (a ∷ [])))
        × (commit_version codec (planned q rows) (rows ++ (a ∷ []))
            ≡ (err version_conflict, rows ++ (a ∷ [])))
  commit_version-race p q rows a b first second =
      let a_eq = planned-eq p rows a first in
      let b_eq = planned-eq q rows b second in
      let (found, taken) = find_version-append_new rows (record_of p (current_version key rows)) in
      rw (first, second, a_eq, b_eq)
        (
          commit-eq p rows,
          ap
              (committed codec (rows ++ (record_of p (current_version key rows) ∷ []))
                (record_of q (current_version key rows)))
              (insert_version-taken (record_of q (current_version key rows)) found
                (rows ++ (record_of p (current_version key rows) ∷ [])) taken),
        )
