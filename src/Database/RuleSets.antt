-- ===== src/Database/RuleSets.antt =====
-- The rule-set versions of app/database.py: append-only rows, the latest of a key being active.
pub mod Versions
use fraud_detection.Prelude.{
  ℕ, ◌+◌, String, Bool, true, false, Option, none, some, List, [], ◌∷◌, ◌++◌, ltb, leb, ◌==◌, not,
  str_eq, take, ◌&&◌, max, if◌then◌else◌,
}
use fraud_detection.Prelude.Result.{Result, ok, err, ◌>>=◌}
use fraud_detection.Rules.Numbers.{Numbers}
use fraud_detection.Rules.Json.{Json}
use fraud_detection.Rules.RuleSet.{
  RuleSetDefinition, RuleSetCodec, LoadError, content_hash, load_stored_definition,
}
use fraud_detection.Database.Paging.{page_size_ok}

-- `RuleSetVersionRecord`
pub record RuleSetVersionRecord (N : Numbers) : Type 0 where
  pub rule_set_key : String
  pub version : ℕ
  pub definition : Json N
  pub content_hash : String
  pub description : String
  pub created_by : String
  pub created_at : ℕ

-- `RuleSet` of app/rules.py
pub record RuleSet (N : Numbers) : Type 0 where
  pub key : String
  pub version : ℕ
  pub definition : RuleSetDefinition N
  pub content_hash : String
  pub description : String
  pub created_by : String
  pub created_at : ℕ

pub data RuleSetError : Type 0 where
  rule_set_not_found version_conflict bad_limit bad_before_version : RuleSetError
  corrupt : LoadError → RuleSetError

-- the `where` of `list_rule_set_versions`
abbrev pub is_before : Option ℕ → ℕ → Bool
is_before none version = true
is_before (some bound) version = ltb version bound

abbrev pub before_version_ok : Option ℕ → Bool
before_version_ok none = true
before_version_ok (some bound) = leb 1 bound

-- the check of `expected_current_version`
abbrev pub expected_ok : Option ℕ → ℕ → Bool
expected_ok none current = true
expected_ok (some expected) current = current == expected

module _ {N : Numbers} where
  abbrev pub newer :
      RuleSetVersionRecord N → Option (RuleSetVersionRecord N) → Option (RuleSetVersionRecord N)
  newer row none = some row
  newer row (some other) = if ltb row.version other.version then some other else some row

  -- the query of `get_latest_rule_set`
  unfoldable pub latest_row :
      String → List (RuleSetVersionRecord N) → Option (RuleSetVersionRecord N)
  latest_row key [] = none
  latest_row key (row ∷ rows) =
      let rest = latest_row key rows in if str_eq row.rule_set_key key then newer row rest else rest

  -- the query of `get_rule_set_version`
  unfoldable pub find_version :
      String → ℕ → List (RuleSetVersionRecord N) → Option (RuleSetVersionRecord N)
  find_version key version [] = none
  find_version key version (row ∷ rows) =
      let rest = find_version key version rows in
      if str_eq row.rule_set_key key && row.version == version then some row else rest

  -- `coalesce(max(version), 0)`
  unfoldable pub current_version : String → List (RuleSetVersionRecord N) → ℕ
  current_version key [] = 0
  current_version key (row ∷ rows) =
      let rest = current_version key rows in
      if str_eq row.rule_set_key key then max row.version rest else rest

  -- its rows, newest first
  unfoldable pub insert_version_row :
      RuleSetVersionRecord N → List (RuleSetVersionRecord N) → List (RuleSetVersionRecord N)
  insert_version_row row [] = row ∷ []
  insert_version_row row (other ∷ rows) =
      let rest = insert_version_row row rows in
      if ltb other.version row.version then row ∷ other ∷ rows else other ∷ rest

  unfoldable pub version_rows :
      String → Option ℕ → List (RuleSetVersionRecord N) → List (RuleSetVersionRecord N)
  unfolding insert_version_row
  version_rows key before [] = []
  version_rows key before (row ∷ rows) =
      let rest = version_rows key before rows in
      if str_eq row.rule_set_key key && is_before before row.version
      then insert_version_row row rest
      else rest

  -- the insert, which `uq_rule_set_versions_key_version` refuses
  unfoldable pub insert_version :
      RuleSetVersionRecord N
      → List (RuleSetVersionRecord N)
      → Result RuleSetError (List (RuleSetVersionRecord N))
  unfolding find_version
  insert_version row rows = elim (find_version row.rule_set_key row.version rows) [
    | none ↦ ok (rows ++ (row ∷ []))
    | some taken ↦ err version_conflict
  ]

module _ {N : Numbers} (codec : RuleSetCodec N) where
  abbrev pub loaded :
      RuleSetVersionRecord N
      → Result LoadError (RuleSetDefinition N)
      → Result RuleSetError (RuleSet N)
  loaded row (ok definition) = ok (record {
    key = row.rule_set_key;
    version = row.version;
    definition = definition;
    content_hash = row.content_hash;
    description = row.description;
    created_by = row.created_by;
    created_at = row.created_at;
  })
  loaded row (err e) = err (corrupt e)

  -- `_rule_set_from_record`
  unfoldable pub rule_set_from_record : RuleSetVersionRecord N → Result RuleSetError (RuleSet N)
  unfolding load_stored_definition
  rule_set_from_record row =
      loaded row (load_stored_definition codec row.definition row.content_hash)

  abbrev pub found : Option (RuleSetVersionRecord N) → Result RuleSetError (RuleSet N)
  found none = err rule_set_not_found
  found (some row) = rule_set_from_record row

  -- `get_latest_rule_set`
  unfoldable pub get_latest_rule_set :
      String → List (RuleSetVersionRecord N) → Result RuleSetError (RuleSet N)
  unfolding latest_row
  get_latest_rule_set key rows = found (latest_row key rows)

  -- `get_rule_set_version`
  unfoldable pub get_rule_set_version :
      String → ℕ → List (RuleSetVersionRecord N) → Result RuleSetError (RuleSet N)
  unfolding find_version
  get_rule_set_version key version rows = found (find_version key version rows)

  unfoldable pub load_all : List (RuleSetVersionRecord N) → Result RuleSetError (List (RuleSet N))
  unfolding rule_set_from_record
  load_all [] = ok []
  load_all (row ∷ rows) = do
    rule_set ← rule_set_from_record row
    rest ← load_all rows
    ok (rule_set ∷ rest)

  -- `list_rule_set_versions`
  unfoldable pub list_rule_set_versions :
      String → ℕ → Option ℕ → List (RuleSetVersionRecord N) → Result RuleSetError (List (RuleSet N))
  unfolding page_size_ok load_all version_rows
  list_rule_set_versions key limit before rows =
      if page_size_ok limit
      then if before_version_ok before
        then load_all (take limit (version_rows key before rows))
        else err bad_before_version
      else err bad_limit

  -- the record that `create_rule_set_version` adds, after it read the current version
  abbrev pub new_version :
      String → RuleSetDefinition N → String → String → String → ℕ → ℕ → RuleSetVersionRecord N
  new_version key definition definition_hash description created_by current now = record {
    rule_set_key = key;
    version = current + 1;
    definition = codec.jsonb (codec.dump definition);
    content_hash = definition_hash;
    description = description;
    created_by = created_by;
    created_at = now;
  }

  -- `create_rule_set_version` up to its insert: what it reads and checks, in the table that it sees
  unfoldable pub plan_version :
      String
      → RuleSetDefinition N
      → String
      → String
      → String
      → Option ℕ
      → ℕ
      → List (RuleSetVersionRecord N)
      → Result RuleSetError (RuleSetVersionRecord N)
  unfolding current_version
  plan_version key definition definition_hash description created_by expected now rows =
      if expected_ok expected (current_version key rows)
      then ok (
          new_version key definition definition_hash description created_by
            (current_version key rows) now)
      else err version_conflict

  -- what is returned after the insert, and the table
  abbrev pub committed :
      List (RuleSetVersionRecord N)
      → RuleSetVersionRecord N
      → Result RuleSetError (List (RuleSetVersionRecord N))
      → Result RuleSetError (RuleSet N) × List (RuleSetVersionRecord N)
  committed rows row (ok rows') = (rule_set_from_record row, rows')
  committed rows row (err e) = (err e, rows)

  -- the insert of a planned version, into the table as it is then
  abbrev pub commit_version :
      Result RuleSetError (RuleSetVersionRecord N)
      → List (RuleSetVersionRecord N)
      → Result RuleSetError (RuleSet N) × List (RuleSetVersionRecord N)
  commit_version (ok row) rows = committed rows row (insert_version row rows)
  commit_version (err e) rows = (err e, rows)

  -- `create_rule_set_version`, alone at work
  unfoldable pub create_rule_set_version :
      String
      → RuleSetDefinition N
      → String
      → String
      → String
      → Option ℕ
      → ℕ
      → List (RuleSetVersionRecord N)
      → Result RuleSetError (RuleSet N) × List (RuleSetVersionRecord N)
  unfolding plan_version
  create_rule_set_version key definition definition_hash description created_by expected now rows =
      commit_version
        (plan_version key definition definition_hash description created_by expected now rows) rows
