-- ===== src/Cache/Integrity.antt =====
-- Only checked rule sets are active (app/cache.py).
use fraud_detection.Prelude.{
  ℕ, ◌-◌, ◌≡◌, refl, String, Option, none, some, ltb, ◌==◌, if-both, Bool-cases, inl, inr, List,
}
use fraud_detection.Prelude.Result.{Result, ok, err}
use fraud_detection.Rules.Numbers.{Numbers}
use fraud_detection.Rules.Json.{Json}
use fraud_detection.Rules.RuleSet.{
  RuleSetDefinition, RuleSetCodec, LoadError, load_stored_definition,
}
use fraud_detection.Database.RuleSets.{
  RuleSetVersionRecord, RuleSet, RuleSetError, rule_set_not_found, corrupt, version_conflict,
  bad_limit, bad_before_version, loaded, found, rule_set_from_record, latest_row,
  get_latest_rule_set,
}
use fraud_detection.Cache.{
  CacheEntry, cache_entry_schema, ActiveError, Stores, Ttl, Call, entry_loaded, deserialise,
  or_miss, read_entry, read_redis, from_database, refresh, local_copy, answer, get_active,
}

module _ {N : Numbers} (codec : RuleSetCodec N) where
  -- The rule set was loaded from a stored body that matches its hash, validates and passes the dry run.
  pub IsChecked : RuleSet N → Type 0
  IsChecked rule_set =
      (body : Json N) × (load_stored_definition codec body rule_set.content_hash
        ≡ ok rule_set.definition)

  abbrev pub IsCheckedCopy : Option (RuleSet N × ℕ) → Type 0
  IsCheckedCopy none = Unit
  IsCheckedCopy (some (rule_set, at)) = IsChecked rule_set

  abbrev IsCheckedFound : Option (RuleSet N) → Type 0
  IsCheckedFound none = Unit
  IsCheckedFound (some rule_set) = IsChecked rule_set

  abbrev pub IsCheckedResult : {E : Type 0} → Result E (RuleSet N) → Type 0
  IsCheckedResult (ok rule_set) = IsChecked rule_set
  IsCheckedResult (err e) = Unit

  loaded-IsChecked :
      (row : RuleSetVersionRecord N) (r : Result LoadError (RuleSetDefinition N))
      → load_stored_definition codec row.definition row.content_hash ≡ r
      → IsCheckedResult (loaded codec row r)
  unfolding IsChecked
  loaded-IsChecked row (ok definition) e = (row.definition, e)
  loaded-IsChecked row (err x) e = tt

  found-IsChecked : (row : Option (RuleSetVersionRecord N)) → IsCheckedResult (found codec row)
  unfolding rule_set_from_record
  found-IsChecked none = tt
  found-IsChecked (some row) =
      loaded-IsChecked row (load_stored_definition codec row.definition row.content_hash) refl

  get_latest_rule_set-IsChecked :
      (key : String) (rows : List (RuleSetVersionRecord N))
      → IsCheckedResult (get_latest_rule_set codec key rows)
  unfolding get_latest_rule_set
  get_latest_rule_set-IsChecked key rows = found-IsChecked (latest_row key rows)

  entry-IsChecked :
      (entry : CacheEntry N) (r : Result LoadError (RuleSetDefinition N))
      → load_stored_definition codec entry.definition entry.content_hash ≡ r
      → IsCheckedFound (or_miss codec (entry_loaded codec entry r))
  unfolding IsChecked
  entry-IsChecked entry (ok definition) e = (entry.definition, e)
  entry-IsChecked entry (err x) e = tt

  deserialise-IsChecked :
      (entry : CacheEntry N) → IsCheckedFound (or_miss codec (deserialise codec entry))
  unfolding deserialise
  deserialise-IsChecked entry = elim (Bool-cases (entry.schema == cache_entry_schema)) [
    | inl known ↦ rw known (
        entry-IsChecked entry (load_stored_definition codec entry.definition entry.content_hash)
          refl)
    | inr unknown ↦ rw unknown tt
  ]

  read_entry-IsChecked :
      (now : ℕ) (entry : Option (CacheEntry N × ℕ)) → IsCheckedFound (read_entry codec now entry)
  read_entry-IsChecked now none = tt
  read_entry-IsChecked now (some (entry, expiry)) = elim (Bool-cases (ltb now expiry)) [
    | inl live ↦ rw live (deserialise-IsChecked entry)
    | inr over ↦ rw over tt
  ]

  read_redis-IsChecked :
      (now : ℕ) (stores : Stores N) → IsCheckedFound (read_redis codec now stores)
  unfolding read_redis
  read_redis-IsChecked now stores = elim (Bool-cases stores.redis_up) [
    | inl up ↦ rw up (read_entry-IsChecked now stores.entry)
    | inr down ↦ rw down tt
  ]

  abbrev pub AreChecked :
      Result ActiveError (RuleSet N) × (Option (RuleSet N × ℕ) × Stores N) → Type 0
  AreChecked (result, (cached, stores)) = IsCheckedResult result × IsCheckedCopy cached

  module _ (ttl : Ttl) (key : String) (call : Call N) (left : IsCheckedCopy call.left) where
    from_database-IsChecked :
        (r : Result RuleSetError (RuleSet N))
        → IsCheckedResult r
        → AreChecked (from_database codec ttl call r)
    from_database-IsChecked (ok rule_set) h = (h, h)
    from_database-IsChecked (err rule_set_not_found) h = (tt, left)
    from_database-IsChecked (err version_conflict) h = (tt, left)
    from_database-IsChecked (err bad_limit) h = (tt, left)
    from_database-IsChecked (err bad_before_version) h = (tt, left)
    from_database-IsChecked (err (corrupt e)) h = (tt, tt)

    refresh-IsChecked :
        (found : Option (RuleSet N))
        → IsCheckedFound found
        → AreChecked (refresh codec ttl key call found)
    refresh-IsChecked (some rule_set) h = (h, h)
    refresh-IsChecked none h =
        if-both AreChecked call.at_query.database_up
          (from_database-IsChecked (get_latest_rule_set codec key call.at_query.rows)
            (get_latest_rule_set-IsChecked key call.at_query.rows))
          (tt, left)

  local_copy-IsChecked :
      (ttl : Ttl) (now : ℕ) (cached : Option (RuleSet N × ℕ))
      → IsCheckedCopy cached
      → IsCheckedFound (local_copy codec ttl now cached)
  local_copy-IsChecked ttl now none c = tt
  local_copy-IsChecked ttl now (some (rule_set, at)) c =
      elim (Bool-cases (ltb (now - at) ttl.local_ttl)) [
        | inl young ↦ rw young c
        | inr old ↦ rw old tt
      ]

  answer-IsChecked :
      (ttl : Ttl) (key : String) (cached : Option (RuleSet N × ℕ)) (call : Call N)
      (copy : Option (RuleSet N))
      → IsCheckedFound copy
      → IsCheckedCopy cached
      → IsCheckedCopy call.left
      → AreChecked (answer codec ttl key cached call copy)
  answer-IsChecked ttl key cached call (some rule_set) h c left = (h, c)
  answer-IsChecked ttl key cached call none h c left =
      refresh-IsChecked ttl key call left (read_redis codec call.read_at call.at_read)
        (read_redis-IsChecked call.read_at call.at_read)

  -- Every rule set that `get_active` returns is checked, and so is the copy that it keeps: whatever Redis
  -- and the database hold at each of its waits, it was loaded from a body that matches its hash, validates
  -- and passes the dry run. The copies that the provider has at the start and the end are checked ones.
  pub get_active-IsChecked :
      (ttl : Ttl) (key : String) (cached : Option (RuleSet N × ℕ)) (call : Call N)
      → IsCheckedCopy cached
      → IsCheckedCopy call.left
      → AreChecked (get_active codec ttl key cached call)
  unfolding get_active
  get_active-IsChecked ttl key cached call c left =
      answer-IsChecked ttl key cached call (local_copy codec ttl call.started cached)
        (local_copy-IsChecked ttl call.started cached c) c left
