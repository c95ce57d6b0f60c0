-- ===== src/Events.antt =====
-- app/events.py: the event's fields and `parse_transaction_event`. JSON decoding and the constraints of
-- the fields are pydantic's and the json module's: the interface `EventCodec`.
pub mod Failures
pub mod Examples
use fraud_detection.Prelude.{
  ℕ, String, Bool, true, false, Option, none, some, ltb, ◌==◌, ◌*◌, if◌then◌else◌,
}
use fraud_detection.Prelude.Int.{ℤ, pos, negsuc}
use fraud_detection.Prelude.Result.{Result, ok, err}
use fraud_detection.Errors.{
  Raised, LibraryError, service, library, invalid_event_error, unsupported_schema_version_error,
  other_error,
}
use fraud_detection.Rules.Numbers.{Numbers}
use fraud_detection.Rules.Json.{
  Json, Fields, get, null, boolean, int, float, decimal, text, array, object,
}
use fraud_detection.Rules.Context.{Enrichment}

abbrev pub max_event_bytes : ℕ
max_event_bytes = 64 * 1024

-- `TransactionCreatedV1`; an instant counts microseconds from the first that `datetime` has, and an
-- amount counts cents
pub record TransactionCreated (N : Numbers) : Type 0 where
  pub transaction_id : ℕ
  pub user_id : ℕ
  pub amount : ℕ
  pub currency : String
  pub category : String
  pub occurred_at : ℕ
  pub channel : Option String
  pub country : Option String
  pub correlation_id : Option String
  pub enrichment : Option (Enrichment N)

-- A call fails by an error that `parse_transaction_event` catches, or by another, which escapes it:
-- `ValueError` for an integer of too many digits, `RecursionError`, `decimal.InvalidOperation`, or the
-- `OverflowError` of `astimezone`.
pub data CodecError : Type 0 where
  caught : CodecError
  escapes : LibraryError → CodecError

-- `len` of the payload, `json.loads` and `model_validate`
pub record EventCodec (N : Numbers) : Type 0 where
  pub size : String → ℕ
  pub loads : String → Result CodecError (Json N)
  pub validate : Fields N → Result CodecError (TransactionCreated N)

-- `version not in SUPPORTED_SCHEMA_VERSIONS`: the set hashes the version first, and a list or a
-- dictionary has no hash
pub data Support : Type 0 where
  supported unsupported unhashable : Support

abbrev pub is_supported : Bool → Support
is_supported true = supported
is_supported false = unsupported

module _ {N : Numbers} where
  unfoldable pub support : Option (Json N) → Support
  support none = unsupported
  support (some null) = unsupported
  support (some (boolean b)) = is_supported b
  support (some (int (pos n))) = is_supported (n == 1)
  support (some (int (negsuc n))) = unsupported
  support (some (float x)) = is_supported (N.same (N.exact x) N.one)
  support (some (decimal x)) = is_supported (N.same x N.one)
  support (some (text s)) = unsupported
  support (some (array items)) = unhashable
  support (some (object fields)) = unhashable

module _ {N : Numbers} (codec : EventCodec N) where
  abbrev pub validated :
      Result CodecError (TransactionCreated N) → Result Raised (TransactionCreated N)
  validated (ok event) = ok event
  validated (err caught) = err (service invalid_event_error)
  validated (err (escapes e)) = err (library e)

  abbrev pub of_version : Support → Fields N → Result Raised (TransactionCreated N)
  of_version supported fields = validated (codec.validate fields)
  of_version unsupported fields = err (service unsupported_schema_version_error)
  of_version unhashable fields = err (library other_error)

  abbrev pub of_document : Result CodecError (Json N) → Result Raised (TransactionCreated N)
  of_document (ok (object fields)) = of_version (support (get "schema_version" fields)) fields
  of_document (err (escapes e)) = err (library e)
  of_document _ = err (service invalid_event_error)

  -- `parse_transaction_event`
  unfoldable pub parse_transaction_event : Option String → Result Raised (TransactionCreated N)
  unfolding support get
  parse_transaction_event none = err (service invalid_event_error)
  parse_transaction_event (some raw) =
      if codec.size raw == 0
      then err (service invalid_event_error)
      else if ltb max_event_bytes (codec.size raw)
      then err (service invalid_event_error)
      else of_document (codec.loads raw)
