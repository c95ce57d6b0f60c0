-- ===== src/Events/Examples.antt =====
-- app/events.py with a concrete codec.
use fraud_detection.Prelude.{◌≡◌, refl, String, none, some, str_eq, if◌then◌else◌}
use fraud_detection.Prelude.Int.{pos}
use fraud_detection.Prelude.Result.{Result, ok, err}
use fraud_detection.Rules.Json.{Json, object, int, array, nil, field, end}
use fraud_detection.Errors.{library, other_error}
use fraud_detection.Rules.Examples.{whole}
use fraud_detection.Events.{
  TransactionCreated, CodecError, escapes, EventCodec, parse_transaction_event,
}
use fraud_detection.Events.Failures.{IsOutcome, parse_transaction_event-IsOutcome}

abbrev pub bought : TransactionCreated whole
bought = record {
  transaction_id = 1;
  user_id = 7;
  amount = 75;
  currency = "ZAR";
  category = "GROCERIES";
  occurred_at = 9000000000;
  channel = none;
  country = none;
  correlation_id = none;
  enrichment = none;
}

abbrev version_of : String → Json whole
version_of s = if str_eq s "list" then array nil else int (pos 1)

abbrev loaded : String → Result CodecError (Json whole)
loaded s =
    if str_eq s "deep"
    then err (escapes other_error)
    else ok (object (field "schema_version" (version_of s) end))

-- a payload is "deep", which is nested too deeply, "list", whose version is a list, or the event above
abbrev pub one_event : EventCodec whole
one_event = record { size = λ s. 10; loads = λ s. loaded s; validate = λ fields. ok bought }

pub bought_parsed : parse_transaction_event one_event (some "event") ≡ ok bought
unfolding parse_transaction_event
bought_parsed = refl

deep_escapes : parse_transaction_event one_event (some "deep") ≡ err (library other_error)
unfolding parse_transaction_event
deep_escapes = refl

parse_transaction_event-IsOutcome_example :
    IsOutcome one_event (some "list") (parse_transaction_event one_event (some "list"))
parse_transaction_event-IsOutcome_example =
    parse_transaction_event-IsOutcome one_event (some "list")
