-- ===== src/Events/Failures.antt =====
-- What a result of `parse_transaction_event` (app/events.py) says of the payload.
use fraud_detection.Prelude.{
  ◌≤◌, ◌≡◌, refl, inl, inr, String, Option, none, some, ltb, ◌==◌, Bool-cases, arith,
}
use fraud_detection.Prelude.Result.{Result, ok, err}
use fraud_detection.Errors.{
  Raised, LibraryError, service, library, invalid_event_error, unsupported_schema_version_error,
  other_error, permanent, classify_failure, classify_failure-permanent,
}
use fraud_detection.Rules.Numbers.{Numbers}
use fraud_detection.Rules.Json.{
  Json, Fields, get, null, boolean, int, float, decimal, text, array, object,
}
use fraud_detection.Events.{
  TransactionCreated, CodecError, caught, escapes, EventCodec, Support, supported, unsupported,
  unhashable, support, max_event_bytes, validated, of_version, of_document, parse_transaction_event,
}

module _ {N : Numbers} (codec : EventCodec N) where
  -- The errors that no handler of `parse_transaction_event` catches.
  pub data Escapes (raw : String) : LibraryError → Type 0 where
    from_loads : (e : LibraryError) → codec.loads raw ≡ err (escapes e) → Escapes raw e
    from_version :
        (fields : Fields N)
        → codec.loads raw ≡ ok (object fields)
        → support (get "schema_version" fields) ≡ unhashable
        → Escapes raw other_error
    from_validation :
        (fields : Fields N) (e : LibraryError)
        → codec.loads raw ≡ ok (object fields)
        → support (get "schema_version" fields) ≡ supported
        → codec.validate fields ≡ err (escapes e)
        → Escapes raw e

  -- The event is that of a JSON object of a supported version.
  pub record IsRead (raw : String) (event : TransactionCreated N) : Type 0 where
    pub fields : Fields N
    pub is_object : codec.loads raw ≡ ok (object fields)
    pub is_supported_version : support (get "schema_version" fields) ≡ supported
    pub is_valid : codec.validate fields ≡ ok event

  abbrev pub IsOwnOrEscaped : String → Raised → Type 0
  IsOwnOrEscaped raw (library e) = Escapes raw e × ¬ (classify_failure (library e) ≡ permanent)
  IsOwnOrEscaped raw e = classify_failure e ≡ permanent

  abbrev pub HasFittingSize : String → Type 0
  HasFittingSize raw = (1 ≤ codec.size raw) × (codec.size raw ≤ max_event_bytes)

  -- What a result says of the payload. A library's error needs one of the size that is decoded.
  abbrev pub IsOutcome : Option String → Result Raised (TransactionCreated N) → Type 0
  IsOutcome none (ok event) = ⊥
  IsOutcome none (err e) = classify_failure e ≡ permanent
  IsOutcome (some raw) (ok event) = HasFittingSize raw × IsRead raw event
  IsOutcome (some raw) (err e) = IsOwnOrEscaped raw e

  abbrev IsParsed : String → Result Raised (TransactionCreated N) → Type 0
  IsParsed raw (ok event) = IsRead raw event
  IsParsed raw (err e) = IsOwnOrEscaped raw e

  never_own : (e : LibraryError) → ¬ (classify_failure (library e) ≡ permanent)
  never_own e h = (classify_failure-permanent (library e)).0 h

  invalid_own : classify_failure (service invalid_event_error) ≡ permanent
  unfolding classify_failure
  invalid_own = refl

  unsupported_own : classify_failure (service unsupported_schema_version_error) ≡ permanent
  unfolding classify_failure
  unsupported_own = refl

  validated-IsParsed :
      (raw : String) (fields : Fields N) (result : Result CodecError (TransactionCreated N))
      → codec.loads raw ≡ ok (object fields)
      → support (get "schema_version" fields) ≡ supported
      → codec.validate fields ≡ result
      → IsParsed raw (validated codec result)
  validated-IsParsed raw fields (ok event) loaded version valid = record {
    fields = fields;
    is_object = loaded;
    is_supported_version = version;
    is_valid = valid;
  }
  validated-IsParsed raw fields (err caught) loaded version valid = invalid_own
  validated-IsParsed raw fields (err (escapes e)) loaded version valid =
      (from_validation fields e loaded version valid, never_own e)

  of_version-IsParsed :
      (raw : String) (fields : Fields N) (version : Support)
      → codec.loads raw ≡ ok (object fields)
      → support (get "schema_version" fields) ≡ version
      → IsParsed raw (of_version codec version fields)
  of_version-IsParsed raw fields supported loaded same =
      validated-IsParsed raw fields (codec.validate fields) loaded same refl
  of_version-IsParsed raw fields unsupported loaded same = unsupported_own
  of_version-IsParsed raw fields unhashable loaded same =
      (from_version fields loaded same, never_own other_error)

  of_document-IsParsed :
      (raw : String) (o : Result CodecError (Json N))
      → codec.loads raw ≡ o
      → IsParsed raw (of_document codec o)
  of_document-IsParsed raw (err caught) loaded = invalid_own
  of_document-IsParsed raw (err (escapes e)) loaded = (from_loads e loaded, never_own e)
  of_document-IsParsed raw (ok (object fields)) loaded =
      of_version-IsParsed raw fields (support (get "schema_version" fields)) loaded refl
  of_document-IsParsed raw (ok null) loaded = invalid_own
  of_document-IsParsed raw (ok (boolean b)) loaded = invalid_own
  of_document-IsParsed raw (ok (int z)) loaded = invalid_own
  of_document-IsParsed raw (ok (float x)) loaded = invalid_own
  of_document-IsParsed raw (ok (decimal x)) loaded = invalid_own
  of_document-IsParsed raw (ok (text s)) loaded = invalid_own
  of_document-IsParsed raw (ok (array items)) loaded = invalid_own

  sized-IsOutcome :
      (raw : String) (result : Result Raised (TransactionCreated N))
      → HasFittingSize raw
      → IsParsed raw result
      → IsOutcome (some raw) result
  sized-IsOutcome raw (ok event) fits h = (fits, h)
  sized-IsOutcome raw (err e) fits h = h

  -- An event that is returned was decoded from a payload of 1 to 65536 bytes, a JSON object of a supported
  -- version that validates to it. A failure is permanent, so that the payload is dead-lettered at once; the
  -- exceptions are the errors of `json.loads` and of the validation that the code does not catch, and a
  -- version that is a list or an object: these escape as errors of the library, and are never permanent.
  pub parse_transaction_event-IsOutcome :
      (raw : Option String) → IsOutcome raw (parse_transaction_event codec raw)
  unfolding parse_transaction_event
  parse_transaction_event-IsOutcome none = invalid_own
  parse_transaction_event-IsOutcome (some raw) = elim (Bool-cases (codec.size raw == 0)) [
    | inl empty ↦ rw empty invalid_own
    | inr some_bytes ↦ rw some_bytes (elim (Bool-cases (ltb max_event_bytes (codec.size raw))) [
      | inl large ↦ rw large invalid_own
      | inr fits ↦ rw fits (
          sized-IsOutcome raw (of_document codec (codec.loads raw)) (ground arith, ground arith)
            (of_document-IsParsed raw (codec.loads raw) refl))
    ])
  ]
