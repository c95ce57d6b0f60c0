-- ===== src/DeadLetters.antt =====
-- app/dlq.py: a dead letter becomes a message of the dead-letter topic. The broker and librdkafka are outside
-- the repository: what they do with one message is a `Delivery`, and the topic is a list.
pub mod Replay
pub mod Copies
pub mod Examples
use fraud_detection.Prelude.{
  ℕ, zero, suc, ◌+◌, String, Bool, true, false, Option, none, some, List, [], ◌∷◌, ◌++◌,
  if◌then◌else◌, str_eq,
}
use Prim.Native.String.{◌++◌ as append}
use fraud_detection.Prelude.Result.{Result, ok, err}
use fraud_detection.Errors.{
  Raised, service, library, LibraryError, FailureClass, transient, permanent, unexpected,
  transient_error,
}
use fraud_detection.Worker.Handle.{DeadLetter}

-- What Python says of an exception: its class's name, `str` of it, the `details` of an `InvalidEventError`
-- (an empty list for another one), and the texts of numbers and instants.
pub record ErrorTexts : Type 0 where
  pub type_name : Raised → String
  pub message : Raised → String
  pub details : Raised → List (String × String)
  pub show : ℕ → String
  pub isoformat : ℕ → String

-- `text[:n]`
unfoldable pub cut : ℕ → String → String
cut zero text = ""
cut (suc n) String.[] = ""
cut (suc n) (String.◌∷◌ c rest) = String.◌∷◌ c (cut n rest)

abbrev pub max_error_message_chars : ℕ
max_error_message_chars = 1024

-- `"; ".join(...)` of the details
abbrev pub joined : List (String × String) → String
joined [] = ""
joined ((field, message) ∷ []) = append field (append ": " message)
joined ((field, message) ∷ next ∷ rest) =
    append field (append ": " (append message (append "; " (joined (next ∷ rest)))))

abbrev pub with_details : String → List (String × String) → String
with_details message [] = message
with_details message (item ∷ items) = append message (append ": " (joined (item ∷ items)))

-- `FailureClass.value`
abbrev pub class_value : FailureClass → String
class_value transient = "transient"
class_value permanent = "permanent"
class_value unexpected = "unexpected"

-- a message of the dead-letter topic
pub record DlqMessage : Type 0 where
  pub key : Option String
  pub value : Option String
  pub headers : List (String × String)

-- What becomes of a produced message: the queue is full, librdkafka refuses it with another exception, the
-- broker acknowledges it, the delivery report is an error, or none comes in time, when the broker may have
-- stored it or not.
pub data Delivery : Type 0 where
  queue_full acknowledged failed : Delivery
  refused : LibraryError → Delivery
  unanswered : Bool → Delivery

abbrev pub correlation_header : Option String → List (String × String)
correlation_header none = []
correlation_header (some id) = if str_eq id "" then [] else ("correlation_id", id) ∷ []

module _ (texts : ErrorTexts) where
  -- `describe_error`
  unfoldable pub describe_error : Raised → String
  unfolding cut
  describe_error error =
      cut max_error_message_chars (with_details (texts.message error) (texts.details error))

  -- `build_dlq_headers`, before the encoding as UTF-8
  unfoldable pub build_dlq_headers : DeadLetter → Option String → ℕ → List (String × String)
  unfolding describe_error
  build_dlq_headers letter correlation_id failed_at =
      ("dlq.schema_version", "1")
      ∷ ("dlq.error.class", class_value letter.failure_class)
      ∷ ("dlq.error.type", texts.type_name letter.error)
      ∷ ("dlq.error.message", describe_error letter.error)
      ∷ ("dlq.source.topic", letter.source_topic)
      ∷ ("dlq.source.partition", texts.show letter.source_partition)
      ∷ ("dlq.source.offset", texts.show letter.source_offset)
      ∷ ("dlq.attempts", texts.show letter.attempts)
      ∷ ("dlq.failed_at", texts.isoformat failed_at)
      ∷ correlation_header correlation_id

  abbrev pub dlq_message : DeadLetter → Option String → ℕ → DlqMessage
  dlq_message letter correlation_id failed_at = record {
    key = letter.key;
    value = letter.value;
    headers = build_dlq_headers letter correlation_id failed_at;
  }

  -- `DeadLetterPublisher.publish`, and the topic after it
  unfoldable pub publish :
      DeadLetter
      → Option String
      → ℕ
      → Delivery
      → List DlqMessage
      → Result Raised (Unit {0}) × List DlqMessage
  unfolding build_dlq_headers
  publish letter correlation_id failed_at queue_full topic = (err (service transient_error), topic)
  publish letter correlation_id failed_at acknowledged topic =
      (ok tt, topic ++ (dlq_message letter correlation_id failed_at ∷ []))
  publish letter correlation_id failed_at failed topic = (err (service transient_error), topic)
  publish letter correlation_id failed_at (refused e) topic = (err (library e), topic)
  publish letter correlation_id failed_at (unanswered stored) topic = (
    err (service transient_error),
    if stored then topic ++ (dlq_message letter correlation_id failed_at ∷ []) else topic,
  )
