-- ===== src/Cache.antt =====
-- app/cache.py: the active rule set, from the process's copy, Redis or the database. Redis is outside the
-- repository: it is a cell that holds the entry of the key until it expires, and that may be
-- unreachable. Instants and times to live are numbers of one unit.
pub mod Integrity
pub mod Staleness
pub mod Examples
use fraud_detection.Prelude.{
  ℕ, ◌+◌, ◌-◌, ◌≡◌, String, Bool, true, false, Option, none, some, List, ltb, ◌==◌, not, ◌&&◌,
  if◌then◌else◌,
}
use fraud_detection.Prelude.Result.{Result, ok, err}
use fraud_detection.Rules.Numbers.{Numbers}
use fraud_detection.Rules.Json.{Json}
use fraud_detection.Rules.RuleSet.{
  RuleSetDefinition, RuleSetCodec, LoadError, load_stored_definition,
}
use fraud_detection.Database.RuleSets.{
  RuleSetVersionRecord, RuleSet, RuleSetError, rule_set_not_found, corrupt, version_conflict,
  bad_limit, bad_before_version, get_latest_rule_set,
}

abbrev pub cache_entry_schema : ℕ
cache_entry_schema = 1

-- the JSON object of `_serialise`
pub record CacheEntry (N : Numbers) : Type 0 where
  pub schema : ℕ
  pub key : String
  pub version : ℕ
  pub definition : Json N
  pub content_hash : String
  pub description : String
  pub created_by : String
  pub created_at : ℕ

pub data ActiveError : Type 0 where
  database_error : ActiveError
  stored : RuleSetError → ActiveError

pub record Stores (N : Numbers) : Type 0 where
  pub rows : List (RuleSetVersionRecord N)
  pub database_up : Bool
  pub entry : Option (CacheEntry N × ℕ)
  pub redis_up : Bool

pub record Ttl : Type 0 where
  pub local_ttl : ℕ
  pub redis_ttl : ℕ

-- A call of `get_active`. Other tasks and processes go on while it waits, so each of its three waits has
-- the stores that it meets, and whether they answer then; the clock is read at the start and at the end.
pub record Call (N : Numbers) : Type 0 where
  -- the first reading of the clock
  pub started : ℕ
  -- when Redis is read
  pub read_at : ℕ
  pub at_read : Stores N
  -- when the database is queried
  pub at_query : Stores N
  -- when Redis is written
  pub written_at : ℕ
  pub at_write : Stores N
  -- the second reading of the clock
  pub finished : ℕ
  -- the copy as the other tasks of the process have left it at the end
  pub left : Option (RuleSet N × ℕ)

-- a call that nothing disturbs
abbrev pub at_once : {N : Numbers} → ℕ → Option (RuleSet N × ℕ) → Stores N → Call N
at_once now cached stores = record {
  started = now;
  read_at = now;
  at_read = stores;
  at_query = stores;
  written_at = now;
  at_write = stores;
  finished = now;
  left = cached;
}

module _ {N : Numbers} (codec : RuleSetCodec N) where
  -- `_serialise`
  unfoldable pub serialise : RuleSet N → CacheEntry N
  serialise rule_set = record {
    schema = cache_entry_schema;
    key = rule_set.key;
    version = rule_set.version;
    definition = codec.dump rule_set.definition;
    content_hash = rule_set.content_hash;
    description = rule_set.description;
    created_by = rule_set.created_by;
    created_at = rule_set.created_at;
  }

  abbrev pub entry_loaded :
      CacheEntry N → Result LoadError (RuleSetDefinition N) → Result LoadError (Option (RuleSet N))
  entry_loaded entry (err e) = err e
  entry_loaded entry (ok definition) = ok (
      some (record {
        key = entry.key;
        version = entry.version;
        definition = definition;
        content_hash = entry.content_hash;
        description = entry.description;
        created_by = entry.created_by;
        created_at = entry.created_at;
      }))

  -- `_deserialise`
  unfoldable pub deserialise : CacheEntry N → Result LoadError (Option (RuleSet N))
  deserialise entry =
      if not (entry.schema == cache_entry_schema)
      then ok none
      else entry_loaded entry (load_stored_definition codec entry.definition entry.content_hash)

  -- every exception means that the database is asked
  abbrev pub or_miss : Result LoadError (Option (RuleSet N)) → Option (RuleSet N)
  or_miss (ok found) = found
  or_miss (err e) = none

  abbrev pub read_entry : ℕ → Option (CacheEntry N × ℕ) → Option (RuleSet N)
  read_entry now none = none
  read_entry now (some (entry, expiry)) =
      if ltb now expiry then or_miss (deserialise entry) else none

  -- `_read_redis`
  unfoldable pub read_redis : ℕ → Stores N → Option (RuleSet N)
  read_redis now stores = if stores.redis_up then read_entry now stores.entry else none

  -- `write_rule_set_cache`; the Boolean says whether Redis took the entry
  unfoldable pub write_rule_set_cache : Ttl → ℕ → RuleSet N → Stores N → Bool × Stores N
  unfolding serialise
  write_rule_set_cache ttl now rule_set stores =
      if stores.redis_up
      then (
        true,
        record {
          rows = stores.rows;
          database_up = stores.database_up;
          entry = some (serialise rule_set, now + ttl.redis_ttl);
          redis_up = stores.redis_up;
        },
      )
      else (false, stores)

  -- the local variables of a provider: the copy and when it was made
  abbrev pub Cached : Type 0
  Cached = Option (RuleSet N × ℕ)

  -- `get_active` after a miss of Redis, with what the database gave; a corrupt version forgets the copy
  abbrev pub from_database :
      Ttl
      → Call N
      → Result RuleSetError (RuleSet N)
      → Result ActiveError (RuleSet N) × (Cached × Stores N)
  from_database ttl call (ok rule_set) = (
    ok rule_set,
    (
      some (rule_set, call.finished),
      (write_rule_set_cache ttl call.written_at rule_set call.at_write).1,
    ),
  )
  from_database ttl call (err (corrupt e)) = (err (stored (corrupt e)), (none, call.at_query))
  from_database ttl call (err rule_set_not_found) =
      (err (stored rule_set_not_found), (call.left, call.at_query))
  from_database ttl call (err version_conflict) =
      (err (stored version_conflict), (call.left, call.at_query))
  from_database ttl call (err bad_limit) = (err (stored bad_limit), (call.left, call.at_query))
  from_database ttl call (err bad_before_version) =
      (err (stored bad_before_version), (call.left, call.at_query))

  -- `get_active` with an expired copy, and what Redis gave
  abbrev pub refresh :
      Ttl
      → String
      → Call N
      → Option (RuleSet N)
      → Result ActiveError (RuleSet N) × (Cached × Stores N)
  refresh ttl key call (some rule_set) =
      (ok rule_set, (some (rule_set, call.finished), call.at_read))
  refresh ttl key call none =
      if call.at_query.database_up
      then from_database ttl call (get_latest_rule_set codec key call.at_query.rows)
      else (err database_error, (call.left, call.at_query))

  -- the copy, if it is young enough
  abbrev pub local_copy : Ttl → ℕ → Cached → Option (RuleSet N)
  local_copy ttl now none = none
  local_copy ttl now (some (rule_set, at)) =
      if ltb (now - at) ttl.local_ttl then some rule_set else none

  abbrev pub answer :
      Ttl
      → String
      → Cached
      → Call N
      → Option (RuleSet N)
      → Result ActiveError (RuleSet N) × (Cached × Stores N)
  answer ttl key cached call (some rule_set) = (ok rule_set, (cached, call.at_read))
  answer ttl key cached call none = refresh ttl key call (read_redis call.read_at call.at_read)

  -- `get_active` of a provider with the copy `cached`: the result, the copy, and the stores after what the
  -- call asked for last
  unfoldable pub get_active :
      Ttl → String → Cached → Call N → Result ActiveError (RuleSet N) × (Cached × Stores N)
  unfolding read_redis write_rule_set_cache get_latest_rule_set
  get_active ttl key cached call = answer ttl key cached call (local_copy ttl call.started cached)
