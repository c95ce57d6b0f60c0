-- ===== src/Errors.antt =====
-- app/errors.py: the error hierarchy and how the worker reacts to a failure. An exception is known by
-- what `classify_failure` can ask of it: its class, and for a database error what it wraps.
pub mod Examples
use fraud_detection.Prelude.{
  ◌≡◌, ◌⊎◌, ◌↔◌, refl, inl, inr, Bool, true, false, Option, none, some, ◌||◌, if◌then◌else◌, arith,
}

pub data FailureClass : Type 0 where
  transient permanent unexpected : FailureClass

-- the service's own errors
pub data ServiceError : Type 0 where
  transient_error corrupt_rule_set_error : ServiceError
  permanent_error invalid_event_error unsupported_schema_version_error : ServiceError
  conflicting_duplicate_error invalid_rule_set_error : ServiceError
  rule_evaluation_error rule_set_not_found_error : ServiceError
  rule_set_version_conflict_error transaction_not_found_error : ServiceError

-- `isinstance(e, TransientError)`
unfoldable pub is_transient_error : ServiceError → Bool
is_transient_error transient_error = true
is_transient_error corrupt_rule_set_error = true
is_transient_error _ = false

-- `isinstance(e, PermanentError)`
unfoldable pub is_permanent_error : ServiceError → Bool
is_permanent_error permanent_error = true
is_permanent_error invalid_event_error = true
is_permanent_error unsupported_schema_version_error = true
is_permanent_error conflicting_duplicate_error = true
is_permanent_error invalid_rule_set_error = true
is_permanent_error _ = false

abbrev pub is_not_found : ServiceError → Bool
is_not_found rule_set_not_found_error = true
is_not_found _ = false

-- exceptions of libraries: those that the code names, and any other
pub data LibraryError : Type 0 where
  timeout connection_error os_error : LibraryError
  postgres_connection cannot_connect_now too_many_connections query_canceled : LibraryError
  redis_connection redis_timeout pool_timeout : LibraryError
  other_error : LibraryError

-- `isinstance(e, _TRANSIENT_LIBRARY_ERRORS)`
unfoldable pub is_transient_library_error : LibraryError → Bool
is_transient_library_error other_error = false
is_transient_library_error _ = true

-- subclasses of `sqlalchemy.exc.DBAPIError`
pub data DbapiClass : Type 0 where
  operational interface programming : DbapiClass

pub record DbapiError : Type 0 where
  pub dbapi_class : DbapiClass
  pub connection_invalidated : Bool
  pub orig : LibraryError
  pub orig_cause : Option LibraryError

pub data Raised : Type 0 where
  service : ServiceError → Raised
  validation : Raised
  library : LibraryError → Raised
  dbapi : DbapiError → Raised

abbrev pub cause_is_transient : Option LibraryError → Bool
cause_is_transient none = false
cause_is_transient (some e) = is_transient_library_error e

-- the last test of `classify_failure`
abbrev pub by_class : DbapiClass → FailureClass
by_class operational = transient
by_class interface = transient
by_class programming = unexpected

unfoldable pub classify_failure : Raised → FailureClass
unfolding is_transient_error is_permanent_error is_transient_library_error
classify_failure (service e) =
    if is_transient_error e || is_not_found e
    then transient
    else if is_permanent_error e
    then permanent
    else unexpected
classify_failure validation = permanent
classify_failure (library e) = if is_transient_library_error e then transient else unexpected
classify_failure (dbapi e) =
    if e.connection_invalidated
    then transient
    else if is_transient_library_error e.orig || cause_is_transient e.orig_cause
    then transient
    else by_class e.dbapi_class

-- Wrapping hides nothing: a driver error that is transient by itself is transient as the `orig` of a
-- database error or as the cause of that, whatever the database error's class.
classify_failure-wrapped :
    (e : DbapiError) (inner : LibraryError)
    → (e.orig ≡ inner) ⊎ (e.orig_cause ≡ some inner)
    → classify_failure (library inner) ≡ transient
    → classify_failure (dbapi e) ≡ transient
unfolding classify_failure
classify_failure-wrapped e inner (inl same) h = ground (arith, same, h)
classify_failure-wrapped e inner (inr same) h = rw same (ground arith)

never_own : (e : DbapiClass) → ¬ (by_class e ≡ permanent)
never_own operational h = cc
never_own interface h = cc
never_own programming h = cc

not_permanent : (b : Bool) → ¬ ((if b then transient else unexpected) ≡ permanent)
not_permanent true h = cc
not_permanent false h = cc

dbapi_not_permanent : (e : DbapiError) → ¬ (classify_failure (dbapi e) ≡ permanent)
unfolding classify_failure
dbapi_not_permanent e h = let at_last = never_own e.dbapi_class in ground (arith)

permanent_own :
    (s : ServiceError) → (classify_failure (service s) ≡ permanent) ↔ (is_permanent_error s ≡ true)
unfolding classify_failure is_permanent_error is_transient_error
permanent_own transient_error = (λ h. absurd (cc), λ h. absurd (cc))
permanent_own corrupt_rule_set_error = (λ h. absurd (cc), λ h. absurd (cc))
permanent_own permanent_error = (λ _. refl, λ _. refl)
permanent_own invalid_event_error = (λ _. refl, λ _. refl)
permanent_own unsupported_schema_version_error = (λ _. refl, λ _. refl)
permanent_own conflicting_duplicate_error = (λ _. refl, λ _. refl)
permanent_own invalid_rule_set_error = (λ _. refl, λ _. refl)
permanent_own rule_evaluation_error = (λ h. absurd (cc), λ h. absurd (cc))
permanent_own rule_set_not_found_error = (λ h. absurd (cc), λ h. absurd (cc))
permanent_own rule_set_version_conflict_error = (λ h. absurd (cc), λ h. absurd (cc))
permanent_own transaction_not_found_error = (λ h. absurd (cc), λ h. absurd (cc))

-- what is dead-lettered at its first failure
abbrev pub IsOwnFault : Raised → Type 0
IsOwnFault (service s) = is_permanent_error s ≡ true
IsOwnFault validation = Unit
IsOwnFault (library e) = ⊥
IsOwnFault (dbapi e) = ⊥

-- A failure is permanent exactly when it is the message's own: a failed validation or one of the
-- service's permanent errors. No error of a library or of the database is.
pub classify_failure-permanent : (e : Raised) → (classify_failure e ≡ permanent) ↔ IsOwnFault e
unfolding classify_failure
classify_failure-permanent (service s) = permanent_own s
classify_failure-permanent validation = (λ _. tt, λ _. refl)
classify_failure-permanent (library e) =
    (λ h. not_permanent (is_transient_library_error e) h, λ h. absurd h)
classify_failure-permanent (dbapi e) = (λ h. dbapi_not_permanent e h, λ h. absurd h)
