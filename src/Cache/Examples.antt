-- ===== src/Cache/Examples.antt =====
-- app/cache.py with concrete stores.
use fraud_detection.Prelude.{◌≡◌, ◌≤◌, refl, true, false, inr, arith, none, some, [], ◌∷◌, ◌+◌}
use fraud_detection.Prelude.Result.{ok, err}
use fraud_detection.Rules.Json.{null}
use fraud_detection.Rules.Validate.{validate_expression}
use fraud_detection.Rules.Evaluate.{evaluate, normalise_literal}
use fraud_detection.Rules.Context.{as_variables}
use fraud_detection.Rules.Examples.{whole, plain_codec, rules}
use fraud_detection.Rules.RuleSet.{hash_mismatch, load_stored_definition}
use fraud_detection.Database.RuleSets.{
  RuleSetVersionRecord, RuleSet, corrupt, new_version, rule_set_from_record, get_latest_rule_set,
}
use fraud_detection.Cache.{
  Stores, Ttl, Call, at_once, get_active, read_redis, serialise, deserialise,
}
use fraud_detection.Cache.Integrity.{AreChecked, get_active-IsChecked}
use fraud_detection.Cache.Staleness.{IsTimely, IsSettling, IsSettlingAfter, get_active-settles}

abbrev pub ttl : Ttl
ttl = record { local_ttl = 30; redis_ttl = 300 }

abbrev version_one : RuleSetVersionRecord whole
version_one = new_version plain_codec "default" rules "rules" "first" "ops" 0 100

abbrev edited : RuleSetVersionRecord whole
edited = record {
  rule_set_key = "default";
  version = 2;
  definition = null;
  content_hash = "rules";
  description = "edited";
  created_by = "ops";
  created_at = 200;
}

abbrev pub stores : Stores whole
stores = record { rows = version_one ∷ []; database_up = true; entry = none; redis_up = true }

abbrev edited_stores : Stores whole
edited_stores = record {
  rows = version_one ∷ edited ∷ [];
  database_up = true;
  entry = none;
  redis_up = true;
}

abbrev active : RuleSet whole
active = record {
  key = "default";
  version = 1;
  definition = rules;
  content_hash = "rules";
  description = "first";
  created_by = "ops";
  created_at = 100;
}

get_active-IsChecked_example :
    AreChecked plain_codec (get_active plain_codec ttl "default" none (at_once 500 none stores))
get_active-IsChecked_example =
    get_active-IsChecked plain_codec ttl "default" none (at_once 500 none stores) tt tt

no_entry : read_redis plain_codec 500 edited_stores ≡ none
unfolding read_redis
no_entry = refl

edited_corrupt :
    get_latest_rule_set plain_codec "default" (version_one ∷ edited ∷ [])
    ≡ err (corrupt hash_mismatch)
unfolding get_latest_rule_set rule_set_from_record
edited_corrupt = refl

own_entry : deserialise plain_codec (serialise plain_codec active) ≡ ok (some active)
unfolding deserialise serialise load_stored_definition validate_expression evaluate
    normalise_literal as_variables
own_entry = refl

one_latest : get_latest_rule_set plain_codec "default" (version_one ∷ []) ≡ ok active
unfolding get_latest_rule_set rule_set_from_record validate_expression evaluate normalise_literal
    as_variables
one_latest = refl

-- a call that finds Redis unreachable, and later is able to write
abbrev call : Call whole
call = record {
  started = 500;
  read_at = 501;
  at_read = record { rows = version_one ∷ []; database_up = true; entry = none; redis_up = false };
  at_query = stores;
  written_at = 503;
  at_write = stores;
  finished = 504;
  left = none;
}

call-IsTimely : IsTimely plain_codec ttl "default" active 100 5 call
call-IsTimely = record {
  read_after = omega arith;
  read_before = omega arith;
  written_before = omega arith;
  is_short = omega arith;
}

call-IsSettling : IsSettling plain_codec ttl "default" active 100 5 none call
call-IsSettling = record {
  old_copy = tt;
  old_left = tt;
  read_entry_old = tt;
  query_entry_old = tt;
  write_entry_old = tt;
  latest = inr one_latest;
}

get_active-settles_example :
    IsSettlingAfter plain_codec ttl "default" active 100 5
      (get_active plain_codec ttl "default" none call)
    × (100 + 5 + 300 + 5 + 30 ≤ 500
        → true ≡ true
        → (get_active plain_codec ttl "default" none call).0 ≡ ok active)
get_active-settles_example =
    get_active-settles plain_codec ttl "default" active 100 5 own_entry none call call-IsTimely
      call-IsSettling
