-- ===== src/Api/RuleSets.antt =====
-- The routes of app/api.py over rule sets. FastAPI has read the request: what it checks of a number is a
-- test here, while the pattern of a key and the length of a description are not. `Stores` is the database
-- with the Redis entry of the key that the request is about.
pub mod Publishing
pub mod Below
pub mod Listed
pub mod Loading
pub mod Listing
use fraud_detection.Prelude.{
  ℕ, String, Bool, true, false, Option, none, some, List, [], ◌∷◌, ltb, leb, ◌==◌, ◌&&◌, not,
  length, if◌then◌else◌,
}
use fraud_detection.Prelude.Result.{Result, ok, err, ◌>>=◌}
use fraud_detection.Errors.{
  Raised, service, library, invalid_rule_set_error, rule_set_not_found_error,
  rule_set_version_conflict_error, corrupt_rule_set_error, connection_error, other_error,
}
use fraud_detection.Rules.Numbers.{Numbers}
use fraud_detection.Rules.Json.{Json}
use fraud_detection.Rules.RuleSet.{
  RuleSetDefinition, RuleSetCodec, InvalidRuleSet, content_hash, parse_rule_set_definition,
}
use fraud_detection.Database.Paging.{page_size_ok}
use fraud_detection.Database.RuleSets.{
  RuleSetVersionRecord, RuleSet, RuleSetError, rule_set_not_found, corrupt, version_conflict,
  bad_limit, bad_before_version, get_latest_rule_set, get_rule_set_version, list_rule_set_versions,
  create_rule_set_version,
}
use fraud_detection.Cache.{Stores, Ttl, write_rule_set_cache}
use fraud_detection.Api.Responses.{RouteError, raised, request_validation_error}

-- the exceptions of app/database.py; the two of a bad argument are `ValueError`
abbrev pub raised_of : RuleSetError → Raised
raised_of rule_set_not_found = service rule_set_not_found_error
raised_of version_conflict = service rule_set_version_conflict_error
raised_of (corrupt e) = service corrupt_rule_set_error
raised_of bad_limit = library other_error
raised_of bad_before_version = library other_error

abbrev pub lifted : {A : Type 0} → Result RuleSetError A → Result RouteError A
lifted (ok a) = ok a
lifted (err e) = err (raised (raised_of e))

-- the query, if the database answers
abbrev pub asked : {A : Type 0} → Bool → Result RuleSetError A → Result RouteError A
asked true result = lifted result
asked false result = err (raised (library connection_error))

-- `Query(ge=2)`
abbrev pub before_ok : Option ℕ → Bool
before_ok none = true
before_ok (some before) = leb 2 before

abbrev pub is_none : {A : Type 0} → Option A → Bool
is_none none = true
is_none (some a) = false

-- the body of `CreateRuleSetVersionRequest`
pub record CreateRuleSetVersionRequest (N : Numbers) : Type 0 where
  pub description : String
  pub definition : Json N
  pub expected_current_version : Option ℕ

-- nothing precedes version 1
abbrev pub older : Option ℕ → Option ℕ
older none = none
older (some version) = if ltb 1 version then some version else none

module _ {N : Numbers} where
  -- `versions[-1].version`
  unfoldable pub last_version : List (RuleSet N) → Option ℕ
  last_version [] = none
  last_version (rule_set ∷ []) = some rule_set.version
  last_version (rule_set ∷ other ∷ rest) = last_version (other ∷ rest)

  -- `next_before`
  unfoldable pub next_before : ℕ → List (RuleSet N) → Option ℕ
  unfolding last_version
  next_before limit versions =
      if length versions == limit then older (last_version versions) else none

  -- `list_versions`, with what the query gave
  abbrev pub version_page :
      ℕ → Option ℕ → List (RuleSet N) → Result RouteError (List (RuleSet N) × Option ℕ)
  version_page limit before [] =
      if is_none before then err (raised (service rule_set_not_found_error)) else ok ([], none)
  version_page limit before (rule_set ∷ rest) =
      ok (rule_set ∷ rest, next_before limit (rule_set ∷ rest))

  abbrev pub with_rows : List (RuleSetVersionRecord N) → Stores N → Stores N
  with_rows rows stores = record {
    rows = rows;
    database_up = stores.database_up;
    entry = stores.entry;
    redis_up = stores.redis_up;
  }

module _ {N : Numbers} (codec : RuleSetCodec N) where
  -- `list_versions`
  unfoldable pub list_versions :
      String → ℕ → Option ℕ → Stores N → Result RouteError (List (RuleSet N) × Option ℕ)
  unfolding list_rule_set_versions page_size_ok next_before
  list_versions key limit before stores =
      if page_size_ok limit && before_ok before
      then (do
        versions ←
            asked stores.database_up (list_rule_set_versions codec key limit before stores.rows)
        version_page limit before versions)
      else err request_validation_error

  -- `get_active_version`
  unfoldable pub get_active_version : String → Stores N → Result RouteError (RuleSet N)
  unfolding get_latest_rule_set
  get_active_version key stores =
      asked stores.database_up (get_latest_rule_set codec key stores.rows)

  -- `get_version`
  unfoldable pub get_version : String → ℕ → Stores N → Result RouteError (RuleSet N)
  unfolding get_rule_set_version
  get_version key version stores =
      if leb 1 version
      then asked stores.database_up (get_rule_set_version codec key version stores.rows)
      else err request_validation_error

  -- `create_version` after the insert: the new version goes to Redis
  abbrev pub announced :
      Ttl
      → ℕ
      → Stores N
      → Result RuleSetError (RuleSet N) × List (RuleSetVersionRecord N)
      → Result RouteError (RuleSet N) × Stores N
  announced ttl now stores (ok rule_set, rows) =
      (ok rule_set, (write_rule_set_cache codec ttl now rule_set (with_rows rows stores)).1)
  announced ttl now stores (err e, rows) = (err (raised (raised_of e)), with_rows rows stores)

  abbrev pub create_parsed :
      Ttl
      → ℕ
      → String
      → CreateRuleSetVersionRequest N
      → String
      → Stores N
      → Result InvalidRuleSet (RuleSetDefinition N)
      → Result RouteError (RuleSet N) × Stores N
  create_parsed ttl now key body subject stores (err e) =
      (err (raised (service invalid_rule_set_error)), stores)
  create_parsed ttl now key body subject stores (ok definition) =
      if stores.database_up
      then announced ttl now stores (
          create_rule_set_version codec key definition (content_hash codec definition)
            body.description subject body.expected_current_version now stores.rows)
      else (err (raised (library connection_error)), stores)

  -- `create_version`, by the caller `subject`
  unfoldable pub create_version :
      Ttl
      → ℕ
      → String
      → CreateRuleSetVersionRequest N
      → String
      → Stores N
      → Result RouteError (RuleSet N) × Stores N
  unfolding parse_rule_set_definition create_rule_set_version write_rule_set_cache content_hash
  create_version ttl now key body subject stores =
      create_parsed ttl now key body subject stores
        (parse_rule_set_definition codec body.definition)
