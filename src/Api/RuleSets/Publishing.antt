-- ===== src/Api/RuleSets/Publishing.antt =====
-- What POST /rule-sets/{key}/versions of app/api.py brings about in the database and in Redis.
use fraud_detection.Prelude.{
  ℕ, ◌+◌, ◌≡◌, ◌⊎◌, refl, sym, ap, ◌∙◌, subst, String, Bool, true, Option, none, some, ltb,
  Bool-cases, if-both, if-cases, if-true, if-false, ◌++◌, ◌∷◌, [], inl, inr,
}
use fraud_detection.Prelude.Result.{Result, ok, err}
use fraud_detection.Rules.Numbers.{Numbers}
use fraud_detection.Rules.Json.{Json}
use fraud_detection.Rules.RuleSet.{
  RuleSetDefinition, RuleSetCodec, InvalidRuleSet, content_hash, model_validate,
  parse_rule_set_definition, load_stored_definition,
}
use fraud_detection.Rules.Published.{load-published}
use fraud_detection.Database.RuleSets.{
  RuleSet, current_version, expected_ok, loaded, rule_set_from_record, get_latest_rule_set,
}
use fraud_detection.Database.RuleSets.Versions.{
  Publication, create, record_of, create-eq, create-stale, create-get_latest_rule_set,
}
use fraud_detection.Cache.{
  Stores, Ttl, Call, from_database, database_error, serialise, deserialise, entry_loaded,
  read_entry, or_miss, read_redis, refresh, local_copy, answer, get_active, write_rule_set_cache,
}
use mathlib.Core.Bool.{true≢false}
use fraud_detection.Api.Responses.{RouteError, raised}
use fraud_detection.Errors.{library, connection_error}
use fraud_detection.Api.RuleSets.{
  CreateRuleSetVersionRequest, asked, with_rows, announced, create_parsed, create_version,
  get_active_version,
}

module _ {N : Numbers} (codec : RuleSetCodec N) where
  -- pydantic validates what it dumped of an accepted body to the same definition, and JSONB gives back what
  -- it dumped
  abbrev pub DumpsBack : Json N → Type 0
  DumpsBack body =
      (definition : RuleSetDefinition N)
      → parse_rule_set_definition codec body ≡ ok definition
      → (model_validate codec (codec.dump definition) ≡ ok definition)
        × (codec.jsonb (codec.dump definition) ≡ codec.dump definition)

  -- the rule set that a publication makes
  abbrev made : String → Publication N → ℕ → RuleSet N
  made key p current = record {
    key = key;
    version = current + 1;
    definition = p.definition;
    content_hash = p.definition_hash;
    description = p.description;
    created_by = p.created_by;
    created_at = p.now;
  }

  abbrev publication :
      CreateRuleSetVersionRequest N → String → ℕ → RuleSetDefinition N → Publication N
  publication body subject now definition = record {
    definition = definition;
    definition_hash = content_hash codec definition;
    description = body.description;
    created_by = subject;
    expected_current_version = body.expected_current_version;
    now = now;
  }

  module _ (body : CreateRuleSetVersionRequest N) (dumps : DumpsBack body.definition)
      (subject : String) (now : ℕ) (definition : RuleSetDefinition N)
      (parsed : parse_rule_set_definition codec body.definition ≡ ok definition) where
    from_record :
        (key : String) (current : ℕ)
        → rule_set_from_record codec
            (record_of codec key (publication body subject now definition) current)
          ≡ ok (made key (publication body subject now definition) current)
    unfolding rule_set_from_record
    from_record key current =
        ap (loaded codec (record_of codec key (publication body subject now definition) current)) (
          ap (λ stored. load_stored_definition codec stored (content_hash codec definition))
            (dumps definition parsed).1
          ∙ load-published codec body.definition definition (dumps definition parsed).0 parsed)

    deserialise-serialise :
        (key : String) (current : ℕ)
        → deserialise codec
            (serialise codec (made key (publication body subject now definition) current))
          ≡ ok (some (made key (publication body subject now definition) current))
    unfolding deserialise serialise
    deserialise-serialise key current =
        ap
          (entry_loaded codec
            (serialise codec (made key (publication body subject now definition) current)))
          (load-published codec body.definition definition (dumps definition parsed).0 parsed)

  -- A worker's call after a publication from the state `before`, which ended in `after`: nobody has published
  -- or written the entry since, and the database answers. Either Redis took the entry of the publication,
  -- or it has none to give to the call. Whether it answers the call is open.
  pub record Follows (before after : Stores N) (call : Call N) : Type 0 where
    pub same_entry : call.at_read.entry ≡ after.entry
    pub same_rows : call.at_query.rows ≡ after.rows
    pub database_up : call.at_query.database_up ≡ true
    pub reached : (before.redis_up ≡ true) ⊎ (read_redis codec call.read_at call.at_read ≡ none)

  -- What a caller and a worker see of a state, where `rule_set` is the active version.
  record Shows (ttl : Ttl) (key : String) (rule_set : RuleSet N) (stores : Stores N)
      (cached : Option (RuleSet N × ℕ)) (call : Call N) : Type 0 where
    in_api : get_active_version codec key stores ≡ ok rule_set
    in_worker : (get_active codec ttl key cached call).0 ≡ ok rule_set

  latest-Shows :
      (ttl : Ttl) (key : String) (rule_set : RuleSet N) (stores : Stores N)
      (cached : Option (RuleSet N × ℕ)) (call : Call N)
      → get_latest_rule_set codec key stores.rows ≡ ok rule_set
      → stores.database_up ≡ true
      → call.at_query.rows ≡ stores.rows
      → call.at_query.database_up ≡ true
      → local_copy codec ttl call.started cached ≡ none
      → (read_redis codec call.read_at call.at_read ≡ none)
        ⊎ (read_redis codec call.read_at call.at_read ≡ some rule_set)
      → Shows ttl key rule_set stores cached call
  unfolding get_active get_active_version
  latest-Shows ttl key rule_set stores cached call latest up rows query_up old read = record {
    in_api = ap (asked stores.database_up) latest ∙ ap (λ b. asked b (ok rule_set)) up;
    in_worker = ap (λ o. (answer codec ttl key cached call o).0) old ∙ elim read [
      | inl missed ↦
          ap (λ o. (refresh codec ttl key call o).0) missed
          ∙ ap (λ r. r.0)
              (if-true
                (from_database codec ttl call (get_latest_rule_set codec key call.at_query.rows))
                (err database_error, (call.left, call.at_query)) query_up)
          ∙ ap (λ rows. (from_database codec ttl call (get_latest_rule_set codec key rows)).0) rows
          ∙ ap (λ r. (from_database codec ttl call r).0) latest
      | inr hit ↦ ap (λ o. (refresh codec ttl key call o).0) hit
    ];
  }

  -- an entry of the rule set gives it, or nothing
  read_own_entry :
      (rule_set : RuleSet N) (expiry now : ℕ) (stores : Stores N)
      → deserialise codec (serialise codec rule_set) ≡ ok (some rule_set)
      → stores.entry ≡ some (serialise codec rule_set, expiry)
      → (read_redis codec now stores ≡ none) ⊎ (read_redis codec now stores ≡ some rule_set)
  unfolding read_redis
  read_own_entry rule_set expiry now stores back own =
      if-both Gives stores.redis_up
        (subst (λ entry. Gives (read_entry codec now entry)) (sym own)
          (if-both Gives (ltb now expiry) (inr (ap (or_miss codec) back)) (inl refl)))
        (inl refl)
    where
      Gives : Option (RuleSet N) → Type 0
      Gives o = (o ≡ none) ⊎ (o ≡ some rule_set)

  -- what was just written is the rule set's entry
  written-Shows :
      (ttl : Ttl) (now : ℕ) (key : String) (rule_set : RuleSet N) (before stores : Stores N)
      (cached : Option (RuleSet N × ℕ)) (call : Call N)
      → before.redis_up ≡ stores.redis_up
      → get_latest_rule_set codec key stores.rows ≡ ok rule_set
      → stores.database_up ≡ true
      → local_copy codec ttl call.started cached ≡ none
      → deserialise codec (serialise codec rule_set) ≡ ok (some rule_set)
      → Follows before (write_rule_set_cache codec ttl now rule_set stores).1 call
      → Shows ttl key rule_set (write_rule_set_cache codec ttl now rule_set stores).1 cached call
  unfolding write_rule_set_cache
  written-Shows ttl now key rule_set before stores cached call same_redis latest up old back =
      if-cases
        (λ (s : Bool × Stores N). Follows before s.1 call → Shows ttl key rule_set s.1 cached call)
        stores.redis_up
        (λ redis follows.
          latest-Shows ttl key rule_set (written_stores now rule_set stores) cached call latest up
            follows.same_rows follows.database_up old
            (read_own_entry rule_set (now + ttl.redis_ttl) call.read_at call.at_read back
              follows.same_entry))
        (λ down follows.
          latest-Shows ttl key rule_set stores cached call latest up follows.same_rows
            follows.database_up old
            (elim follows.reached [
              | inl redis ↦ absurd (true≢false (sym redis ∙ (same_redis ∙ down)))
              | inr missed ↦ inl missed
            ]))
    where
      written_stores : ℕ → RuleSet N → Stores N → Stores N
      written_stores now rule_set stores = record {
        rows = stores.rows;
        database_up = stores.database_up;
        entry = some (serialise codec rule_set, now + ttl.redis_ttl);
        redis_up = stores.redis_up;
      }

  -- what a successful publication brings about; a failed one says nothing
  abbrev IsEffective :
      Ttl
      → Call N
      → String
      → String
      → Option (RuleSet N × ℕ)
      → Stores N
      → ℕ
      → Result RouteError (RuleSet N) × Stores N
      → Type 0
  IsEffective ttl call key subject cached before current (err e, stores) = Unit
  IsEffective ttl call key subject cached before current (ok rule_set, stores) =
      (Follows before stores call → Shows ttl key rule_set stores cached call)
      × (rule_set.version ≡ current + 1)
      × (rule_set.created_by ≡ subject)

  module _ (ttl : Ttl) (now : ℕ) (key : String) (body : CreateRuleSetVersionRequest N)
      (dumps : DumpsBack body.definition) (subject : String) (stores : Stores N)
      (cached : Option (RuleSet N × ℕ)) (call : Call N)
      (old : local_copy codec ttl call.started cached ≡ none) where
    abbrev current : ℕ
    current = current_version key stores.rows

    announced-IsEffective :
        (definition : RuleSetDefinition N)
        → parse_rule_set_definition codec body.definition ≡ ok definition
        → stores.database_up ≡ true
        → IsEffective ttl call key subject cached stores current (
            announced codec ttl now stores
              (create codec key (publication body subject now definition) stores.rows))
    announced-IsEffective definition parsed up =
        elim (Bool-cases (expected_ok body.expected_current_version current)) [
          | inl fits ↦
              let p = publication body subject now definition in
              let done =
                create-eq codec key p stores.rows fits
                ∙ ap (λ r. (r, stores.rows ++ (record_of codec key p current ∷ [])))
                    (from_record body dumps subject now definition parsed key current) in
              subst
                (λ r.
                  IsEffective ttl call key subject cached stores current
                    (announced codec ttl now stores r))
                (sym done)
                (
                  written-Shows ttl now key (made key p current) stores
                      (with_rows (stores.rows ++ (record_of codec key p current ∷ [])) stores)
                      cached call refl
                      (sym (ap (λ r. get_latest_rule_set codec key r.1) done)
                        ∙ (create-get_latest_rule_set codec key p stores.rows fits).0
                        ∙ ap (λ r. r.0) done)
                      up old
                      (deserialise-serialise body dumps subject now definition parsed key current),
                  refl,
                  refl,
                )
          | inr stale ↦
              subst
                (λ r.
                  IsEffective ttl call key subject cached stores current
                    (announced codec ttl now stores r))
                (sym (
                  create-stale codec key (publication body subject now definition) stores.rows
                    stale))
                tt
        ]

    create_parsed-IsEffective :
        (result : Result InvalidRuleSet (RuleSetDefinition N))
        → parse_rule_set_definition codec body.definition ≡ result
        → IsEffective ttl call key subject cached stores current
            (create_parsed codec ttl now key body subject stores result)
    create_parsed-IsEffective (err e) parsed = tt
    create_parsed-IsEffective (ok definition) parsed = elim (Bool-cases stores.database_up) [
      | inl up ↦
          subst (IsEffective ttl call key subject cached stores current)
            (sym (
              if-true
                (announced codec ttl now stores
                  (create codec key (publication body subject now definition) stores.rows))
                (err (raised (library connection_error)), stores) up))
            (announced-IsEffective definition parsed up)
      | inr down ↦
          subst (IsEffective ttl call key subject cached stores current)
            (sym (
              if-false
                (announced codec ttl now stores
                  (create codec key (publication body subject now definition) stores.rows))
                (err (raised (library connection_error)), stores) down))
            tt
    ]

    -- What a publication brings about. When the request succeeds, the version is one more than the latest
    -- before it and names the caller, and the API shows it as the active version. A worker whose own copy is
    -- no longer fresh scores with it, as long as nobody publishes again or writes the entry in between: if
    -- Redis took the entry of the publication, whether or not it answers the worker, and if it did not,
    -- provided that it has no entry to give. (An older entry that it kept is used until it expires.)
    pub create_version-get_active :
        (rule_set : RuleSet N) (after : Stores N)
        → create_version codec ttl now key body subject stores ≡ (ok rule_set, after)
        → Follows stores after call
        → (get_active_version codec key after ≡ ok rule_set)
          × ((get_active codec ttl key cached call).0 ≡ ok rule_set)
          × (rule_set.version ≡ current_version key stores.rows + 1)
          × (rule_set.created_by ≡ subject)
    unfolding create_version
    create_version-get_active rule_set after e follows =
        let (shows, version, author) =
          subst (IsEffective ttl call key subject cached stores current) e
            (create_parsed-IsEffective (parse_rule_set_definition codec body.definition) refl) in
        ((shows follows).in_api, (shows follows).in_worker, version, author)
