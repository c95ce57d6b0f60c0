-- ===== src/Observability.antt =====
-- app/observability.py: what may enter a log. Identifiers from callers are checked, and the values of
-- sensitive keys are masked. `lower` of a text is Python's.
pub mod Redaction
pub mod Identifiers
pub mod Examples
use fraud_detection.Prelude.{
  ℕ, suc, String, Bool, true, false, Option, none, some, List, [], ◌∷◌, leb, ◌==◌, ◌&&◌, ◌||◌,
  if◌then◌else◌, str_eq,
}
use Prim.Native.Char.{Char, code}

abbrev pub is_alphanumeric : Char → Bool
is_alphanumeric c =
    leb b'A' (code c) && leb (code c) b'Z'
    || (leb b'a' (code c) && leb (code c) b'z' || leb b'0' (code c) && leb (code c) b'9')

-- `[A-Za-z0-9._:\-]`
abbrev pub is_safe : Char → Bool
is_safe c =
    is_alphanumeric c || (code c == b'.' || (code c == b'_' || (code c == b':' || code c == b'-')))

-- a newline, before which `$` of Python's `re` matches when it is the last character
abbrev pub newline : ℕ
newline = 10

-- `_SAFE_ID.match` from a character on, with how many safe ones were before it
unfoldable pub match_safe : ℕ → String → Bool
match_safe n String.[] = leb 1 n && leb n 128
match_safe n (String.◌∷◌ c String.[]) =
    if is_safe c then leb (suc n) 128 else (code c == newline && (leb 1 n && leb n 128))
match_safe n (String.◌∷◌ c (String.◌∷◌ d rest)) =
    is_safe c && match_safe (suc n) (String.◌∷◌ d rest)

-- `sanitise_correlation_id`, of a header or a field, which is a text or missing
unfoldable pub sanitise_correlation_id : Option String → Option String
unfolding match_safe
sanitise_correlation_id none = none
sanitise_correlation_id (some value) = if match_safe 0 value then some value else none

-- `sanitise_correlation_id(value) or str(uuid4())`
unfoldable pub bind_correlation_id : String → Option String → String
unfolding sanitise_correlation_id
bind_correlation_id fresh value = elim (sanitise_correlation_id value) [
  | none ↦ fresh
  | some id ↦ if str_eq id "" then fresh else id
]

-- A value of a log record: a dictionary, a list or a tuple, or anything else, by its text.
mutual
  pub data LogValue : Type 0 where
    dict : LogFields → LogValue
    sequence : LogItems → LogValue
    scalar : String → LogValue

  pub data LogItems : Type 0 where
    no_items : LogItems
    item : LogValue → LogItems → LogItems

  pub data LogFields : Type 0 where
    no_fields : LogFields
    entry : String → LogValue → LogFields → LogFields

abbrev pub redacted : LogValue
redacted = scalar "[REDACTED]"

-- `str(k).lower() in keys`
unfoldable pub is_listed : List String → String → Bool
is_listed [] name = false
is_listed (key ∷ keys) name = str_eq key name || is_listed keys name

unfoldable pub lowered : (String → String) → List String → List String
lowered lower [] = []
lowered lower (key ∷ keys) = lower key ∷ lowered lower keys

-- `redact`, with the test of a key
unfoldable mutual
  pub redact : (String → Bool) → LogValue → LogValue
  redact sensitive (dict fields) = dict (redact_fields sensitive fields)
  redact sensitive (sequence items) = sequence (redact_items sensitive items)
  redact sensitive (scalar text) = scalar text

  pub redact_items : (String → Bool) → LogItems → LogItems
  redact_items sensitive no_items = no_items
  redact_items sensitive (item value items) =
      item (redact sensitive value) (redact_items sensitive items)

  pub redact_fields : (String → Bool) → LogFields → LogFields
  redact_fields sensitive no_fields = no_fields
  redact_fields sensitive (entry key value fields) =
      entry key (if sensitive key then redacted else redact sensitive value)
        (redact_fields sensitive fields)

-- `_redaction_processor(sensitive_keys)` on an event
unfoldable pub redaction_processor : (String → String) → List String → LogFields → LogFields
unfolding redact is_listed lowered
redaction_processor lower sensitive_keys event =
    redact_fields (λ key. is_listed (lowered lower sensitive_keys) (lower key)) event

-- A route of the application: its template, or nothing for a mount, and whether it matches the request.
pub record AppRoute : Type 0 where
  pub path : Option String
  pub is_full_match : Bool

abbrev pub first_match : List AppRoute → String
first_match [] = "<unmatched>"
first_match (route ∷ routes) = elim route.path [
  | none ↦ first_match routes
  | some path ↦ if route.is_full_match then path else first_match routes
]

-- `_resolved_route_template`, with the route that the scope names and those of the application
unfoldable pub resolved_route_template : Option AppRoute → List AppRoute → String
resolved_route_template none routes = first_match routes
resolved_route_template (some scoped) routes = elim scoped.path [
  | none ↦ first_match routes
  | some path ↦ path
]
