-- ===== src/Observability/Examples.antt =====
-- Tests of what may enter a log.
use Prim.Native.String.{count as text_length}
use fraud_detection.Prelude.{
  ◌≤◌, ◌≡◌, refl, String, true, none, some, [], ◌∷◌, str_eq, if◌then◌else◌,
}
use fraud_detection.Observability.{
  LogFields, entry, no_fields, scalar, dict, sequence, item, no_items, redacted, is_listed, lowered,
  redaction_processor, sanitise_correlation_id,
}
use fraud_detection.Observability.Redaction.{AreClean, redaction_processor-AreClean}
use fraud_detection.Observability.Identifiers.{safe_to_the_end, sanitise_correlation_id-safe}

abbrev lower : String → String
lower text = if str_eq text "Token" then "token" else text

abbrev event : LogFields
event = entry "user" (scalar "alice") (
    entry "headers"
      (dict (
        entry "Token" (scalar "secret")
          (entry "n" (sequence (item (scalar "1") no_items)) no_fields)))
      no_fields)

event-redaction_processor :
    redaction_processor lower ("token" ∷ []) event
    ≡ entry "user" (scalar "alice") (
        entry "headers"
          (dict
            (entry "Token" redacted (entry "n" (sequence (item (scalar "1") no_items)) no_fields)))
          no_fields)
unfolding redaction_processor
event-redaction_processor = refl

redaction_processor-AreClean_example :
    AreClean
      (λ key. is_listed (lowered lower ("token" ∷ [])) (lower key))
      (redaction_processor lower ("token" ∷ []) event)
    × (redaction_processor lower ("token" ∷ []) (redaction_processor lower ("token" ∷ []) event)
        ≡ redaction_processor lower ("token" ∷ []) event)
redaction_processor-AreClean_example = redaction_processor-AreClean lower ("token" ∷ []) event

-- `$` lets a newline pass at the end.
with_newline : sanitise_correlation_id (some "abc\n") ≡ some "abc\n"
unfolding sanitise_correlation_id
with_newline = refl

inner_newline : sanitise_correlation_id (some "ab\nc") ≡ none
unfolding sanitise_correlation_id
inner_newline = refl

sanitise_correlation_id-safe_example :
    (◌≡◌ {A = String} "abc\n" "abc\n")
    × (safe_to_the_end "abc\n" ≡ true)
    × (1 ≤ text_length "abc\n")
    × (text_length "abc\n" ≤ 129)
sanitise_correlation_id-safe_example = sanitise_correlation_id-safe "abc\n" "abc\n" with_newline
