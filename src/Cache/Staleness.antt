-- ===== src/Cache/Staleness.antt =====
-- The staleness bound of app/cache.py: an old version is used for at most both times to live and the length
-- of two calls.
use fraud_detection.Prelude.{
  ℕ, ◌+◌, ◌-◌, ◌≤◌, ◌<◌, ◌≡◌, ◌⊎◌, refl, ap, ◌∙◌, String, Bool, true, false, Option, none, some,
  ltb, arith, Bool-cases, if-both, if-true, inl, inr,
}
use fraud_detection.Prelude.Result.{Result, ok, err}
use fraud_detection.Rules.Numbers.{Numbers}
use fraud_detection.Rules.RuleSet.{RuleSetCodec}
use fraud_detection.Database.RuleSets.{
  RuleSet, RuleSetError, rule_set_not_found, corrupt, version_conflict, bad_limit,
  bad_before_version, get_latest_rule_set,
}
use fraud_detection.Cache.{
  CacheEntry, ActiveError, database_error, Stores, Ttl, Call, serialise, deserialise, or_miss,
  read_entry, read_redis, write_rule_set_cache, from_database, refresh, local_copy, answer,
  get_active,
}

module _ {N : Numbers} (codec : RuleSetCodec N) (ttl : Ttl) (key : String) (active : RuleSet N)
    (changed longest : ℕ) where
  -- the last instant at which an entry of an older version can expire
  abbrev last_expiry : ℕ
  last_expiry = changed + longest + ttl.redis_ttl

  -- A copy is of the active version, or was made while an old entry could be live, or by a call that had
  -- read one then.
  abbrev pub IsOldCopy : Option (RuleSet N × ℕ) → Type 0
  IsOldCopy none = Unit
  IsOldCopy (some (rule_set, at)) = (rule_set ≡ active) ⊎ (at < last_expiry + longest)

  -- An entry gives the active version, or expires in time.
  abbrev pub IsOldEntry : Option (CacheEntry N × ℕ) → Type 0
  IsOldEntry none = Unit
  IsOldEntry (some (entry, expiry)) =
      (deserialise codec entry ≡ ok (some active)) ⊎ (expiry ≤ last_expiry)

  -- The instants of a call are in order, and it lasts no longer than `longest`.
  pub record IsTimely (call : Call N) : Type 0 where
    pub read_after : call.started ≤ call.read_at
    pub read_before : call.read_at ≤ call.finished
    pub written_before : call.written_at ≤ call.finished
    pub is_short : call.finished ≤ call.started + longest

  -- What a call meets from the instant `changed` on, at which `active` became the latest version in the
  -- database: it may have queried the database before, if it started before.
  pub record IsSettling (cached : Option (RuleSet N × ℕ)) (call : Call N) : Type 0 where
    pub old_copy : IsOldCopy cached
    pub old_left : IsOldCopy call.left
    pub read_entry_old : IsOldEntry call.at_read.entry
    pub query_entry_old : IsOldEntry call.at_query.entry
    pub write_entry_old : IsOldEntry call.at_write.entry
    pub latest :
        (call.started < changed) ⊎ (get_latest_rule_set codec key call.at_query.rows ≡ ok active)

  abbrev IsActiveBy : ℕ → ℕ → Option (RuleSet N) → Type 0
  IsActiveBy bound now none = Unit
  IsActiveBy bound now (some rule_set) = (rule_set ≡ active) ⊎ (now < bound)

  read_entry-IsActiveBy :
      (now : ℕ) (entry : Option (CacheEntry N × ℕ))
      → IsOldEntry entry
      → IsActiveBy last_expiry now (read_entry codec now entry)
  read_entry-IsActiveBy now none h = tt
  read_entry-IsActiveBy now (some (entry, expiry)) (inl same) =
      if-both (IsActiveBy last_expiry now) (ltb now expiry) (rw same (inl refl)) tt
  read_entry-IsActiveBy now (some (entry, expiry)) (inr soon) = elim (Bool-cases (ltb now expiry)) [
    | inl live ↦ rw live (live_by (or_miss codec (deserialise codec entry)) (ground arith))
    | inr over ↦ rw over tt
  ]
    where
      live_by : (o : Option (RuleSet N)) → now < last_expiry → IsActiveBy last_expiry now o
      live_by none lt = tt
      live_by (some rule_set) lt = inr lt

  read_redis-IsActiveBy :
      (now : ℕ) (stores : Stores N)
      → IsOldEntry stores.entry
      → IsActiveBy last_expiry now (read_redis codec now stores)
  unfolding read_redis
  read_redis-IsActiveBy now stores h =
      if-both (IsActiveBy last_expiry now) stores.redis_up
        (read_entry-IsActiveBy now stores.entry h) tt

  abbrev pub IsSettlingAfter :
      Result ActiveError (RuleSet N) × (Option (RuleSet N × ℕ) × Stores N) → Type 0
  IsSettlingAfter (result, (cached, stores)) = IsOldCopy cached × IsOldEntry stores.entry

  module _ (round_trip : deserialise codec (serialise codec active) ≡ ok (some active))
      (cached : Option (RuleSet N × ℕ)) (call : Call N) (timely : IsTimely call)
      (meets : IsSettling cached call) where
    -- the entry that the call writes, of the active version or of an older one
    write-IsSettling :
        (rule_set : RuleSet N)
        → (rule_set ≡ active) ⊎ (call.started < changed)
        → IsSettlingAfter (
          ok rule_set,
          (
            some (rule_set, call.finished),
            (write_rule_set_cache codec ttl call.written_at rule_set call.at_write).1,
          ),
        )
    unfolding write_rule_set_cache
    write-IsSettling rule_set which = (
      copy which,
      if-both (λ (r : Bool × Stores N). IsOldEntry r.1.entry) call.at_write.redis_up (entry which)
          meets.write_entry_old,
    )
      where
        copy :
            (rule_set ≡ active) ⊎ (call.started < changed)
            → IsOldCopy (some (rule_set, call.finished))
        copy (inl same) = inl same
        copy (inr early) = let short = timely.is_short in inr (omega (arith, early))

        entry :
            (rule_set ≡ active) ⊎ (call.started < changed)
            → IsOldEntry (some (serialise codec rule_set, call.written_at + ttl.redis_ttl))
        entry (inl same) = inl (rw same round_trip)
        entry (inr early) =
            let short = timely.is_short in
            let before = timely.written_before in inr (omega (arith, early))

    from_database-IsSettling :
        (r : Result RuleSetError (RuleSet N))
        → (call.started < changed) ⊎ (r ≡ ok active)
        → IsSettlingAfter (from_database codec ttl call r)
    from_database-IsSettling (ok rule_set) (inl early) = write-IsSettling rule_set (inr early)
    from_database-IsSettling (ok rule_set) (inr same) = write-IsSettling rule_set (inl (cc))
    from_database-IsSettling (err (corrupt e)) h = (tt, meets.query_entry_old)
    from_database-IsSettling (err rule_set_not_found) h = (meets.old_left, meets.query_entry_old)
    from_database-IsSettling (err version_conflict) h = (meets.old_left, meets.query_entry_old)
    from_database-IsSettling (err bad_limit) h = (meets.old_left, meets.query_entry_old)
    from_database-IsSettling (err bad_before_version) h = (meets.old_left, meets.query_entry_old)

    refresh-IsSettling :
        (found : Option (RuleSet N))
        → IsActiveBy last_expiry call.read_at found
        → IsSettlingAfter (refresh codec ttl key call found)
    refresh-IsSettling (some rule_set) (inl same) = (inl same, meets.read_entry_old)
    refresh-IsSettling (some rule_set) (inr live) =
        let after = timely.read_after in
        let short = timely.is_short in (inr (omega (arith, live)), meets.read_entry_old)
    refresh-IsSettling none by =
        if-both IsSettlingAfter call.at_query.database_up
          (from_database-IsSettling (get_latest_rule_set codec key call.at_query.rows) meets.latest)
          (meets.old_left, meets.query_entry_old)

    answer-IsSettling :
        (copy : Option (RuleSet N)) → IsSettlingAfter (answer codec ttl key cached call copy)
    answer-IsSettling (some rule_set) = (meets.old_copy, meets.read_entry_old)
    answer-IsSettling none =
        refresh-IsSettling (read_redis codec call.read_at call.at_read)
          (read_redis-IsActiveBy call.read_at call.at_read meets.read_entry_old)

    module _ (late : last_expiry + longest + ttl.local_ttl ≤ call.started)
        (up : call.at_query.database_up ≡ true) where
      refresh-late :
          (found : Option (RuleSet N))
          → IsActiveBy last_expiry call.read_at found
          → (refresh codec ttl key call found).0 ≡ ok active
      refresh-late (some rule_set) (inl same) = ap ok same
      refresh-late (some rule_set) (inr early) =
          let after = timely.read_after in absurd (omega arith)
      refresh-late none by = elim meets.latest [
        | inl early ↦ absurd (omega (arith, early))
        | inr latest ↦
            ap (λ r. r.0)
              (if-true
                  (from_database codec ttl call (get_latest_rule_set codec key call.at_query.rows))
                  (err database_error, (call.left, call.at_query)) up
                ∙ ap (from_database codec ttl call) latest)
      ]

      answer-late :
          (copy : Option (RuleSet N))
          → IsActiveBy (last_expiry + longest + ttl.local_ttl) call.started copy
          → (answer codec ttl key cached call copy).0 ≡ ok active
      answer-late (some rule_set) (inl same) = ap ok same
      answer-late (some rule_set) (inr early) = absurd (omega arith)
      answer-late none by =
          refresh-late (read_redis codec call.read_at call.at_read)
            (read_redis-IsActiveBy call.read_at call.at_read meets.read_entry_old)

      local_copy-late :
          (copy : Option (RuleSet N × ℕ))
          → IsOldCopy copy
          → IsActiveBy
              (last_expiry + longest + ttl.local_ttl)
              call.started
              (local_copy codec ttl call.started copy)
      local_copy-late none h = tt
      local_copy-late (some (rule_set, at)) (inl same) =
          if-both (IsActiveBy (last_expiry + longest + ttl.local_ttl) call.started)
            (ltb (call.started - at) ttl.local_ttl) (inl same) tt
      local_copy-late (some (rule_set, at)) (inr early) =
          let old : ltb (call.started - at) ttl.local_ttl ≡ false = ground arith in rw old tt

    -- Staleness is bounded. Let `active` be the latest version in the database from the instant `changed` on,
    -- and let no call last longer than `longest`. Calls that had queried the database before may still write
    -- an older entry and make an older copy, as may calls that read such an entry; entries of older versions
    -- expire by `changed + longest` and Redis's time to live. Every call keeps this so, whatever the other
    -- tasks and processes do so during its waits. A call that starts when both times to live and twice
    -- `longest` have passed since `changed`, and whose query the database answers if it makes one, gives
    -- `active`. The clocks of the processes and of Redis are one, and `active`'s own entry loads back.
    pub get_active-settles :
        IsSettlingAfter (get_active codec ttl key cached call)
        × (changed + longest + ttl.redis_ttl + longest + ttl.local_ttl ≤ call.started
            → call.at_query.database_up ≡ true
            → (get_active codec ttl key cached call).0 ≡ ok active)
    unfolding get_active
    get_active-settles = (
      answer-IsSettling (local_copy codec ttl call.started cached),
      λ late up.
          answer-late late up (local_copy codec ttl call.started cached)
            (local_copy-late late up cached meets.old_copy),
    )
