-- ===== src/Observability/Redaction.antt =====
-- What app/observability.py lets into a log.
use fraud_detection.Prelude.{◌≡◌, refl, sym, ap, String, Bool, true, false, List, if◌then◌else◌}
use fraud_detection.Observability.{
  LogValue, dict, sequence, scalar, LogItems, no_items, item, LogFields, no_fields, entry, redacted,
  redact, redact_items, redact_fields, is_listed, lowered, redaction_processor,
}

module _ (sensitive : String → Bool) where
  abbrev IsMaskedAs : Bool → LogValue → Type 0
  IsMaskedAs true value = value ≡ redacted
  IsMaskedAs false value = Unit

  -- At every depth, a sensitive key has the mask as its value.
  abbrev mutual
    pub IsClean : LogValue → Type 0
    IsClean (dict fields) = AreClean fields
    IsClean (sequence items) = HaveClean items
    IsClean (scalar text) = Unit

    pub HaveClean : LogItems → Type 0
    HaveClean no_items = Unit
    HaveClean (item value items) = IsClean value × HaveClean items

    pub AreClean : LogFields → Type 0
    AreClean no_fields = Unit
    AreClean (entry key value fields) =
        IsMaskedAs (sensitive key) value × (IsClean value × AreClean fields)

  masked : (b : Bool) (value : LogValue) → IsMaskedAs b (if b then redacted else value)
  masked true value = refl
  masked false value = tt

  IsClean-if :
      (b : Bool) (value : LogValue) → IsClean value → IsClean (if b then redacted else value)
  IsClean-if true value h = tt
  IsClean-if false value h = h

  mutual
    unfolding redact

    redact-IsClean : (value : LogValue) → IsClean (redact sensitive value)
    redact-IsClean (dict fields) = redact_fields-AreClean fields
    redact-IsClean (sequence items) = redact_items-HaveClean items
    redact-IsClean (scalar text) = tt

    redact_items-HaveClean : (items : LogItems) → HaveClean (redact_items sensitive items)
    redact_items-HaveClean no_items = tt
    redact_items-HaveClean (item value items) = (redact-IsClean value, redact_items-HaveClean items)

    redact_fields-AreClean : (fields : LogFields) → AreClean (redact_fields sensitive fields)
    redact_fields-AreClean no_fields = tt
    redact_fields-AreClean (entry key value fields) = (
      masked (sensitive key) (redact sensitive value),
      (
        IsClean-if (sensitive key) (redact sensitive value) (redact-IsClean value),
        redact_fields-AreClean fields,
      ),
    )

  kept :
      (b : Bool) (value : LogValue) → IsMaskedAs b value → (if b then redacted else value) ≡ value
  kept true value h = sym h
  kept false value h = refl

  mutual
    unfolding redact

    redact-clean : (value : LogValue) → IsClean value → redact sensitive value ≡ value
    redact-clean (dict fields) h = ap dict (redact_fields-clean fields h)
    redact-clean (sequence items) h = ap sequence (redact_items-clean items h)
    redact-clean (scalar text) h = refl

    redact_items-clean : (items : LogItems) → HaveClean items → redact_items sensitive items ≡ items
    redact_items-clean no_items h = refl
    redact_items-clean (item value items) (h, hs) =
        rw (redact-clean value h, redact_items-clean items hs) refl

    redact_fields-clean :
        (fields : LogFields) → AreClean fields → redact_fields sensitive fields ≡ fields
    redact_fields-clean no_fields h = refl
    redact_fields-clean (entry key value fields) (m, (h, hs)) =
        rw (redact-clean value h, redact_fields-clean fields hs)
          (ap (λ v. entry key v fields) (kept (sensitive key) value m))

-- Nothing sensitive reaches the log: after the processor every key that is listed,
-- whatever its case and however deep it stands, has the mask as its value, and a second pass changes
-- nothing.
pub redaction_processor-AreClean :
    (lower : String → String) (keys : List String) (event : LogFields)
    → AreClean
        (λ key. is_listed (lowered lower keys) (lower key))
        (redaction_processor lower keys event)
      × (redaction_processor lower keys (redaction_processor lower keys event)
          ≡ redaction_processor lower keys event)
unfolding redaction_processor
redaction_processor-AreClean lower keys event =
    let sensitive : String → Bool = λ key. is_listed (lowered lower keys) (lower key) in
    let clean = redact_fields-AreClean sensitive event in
    (clean, redact_fields-clean sensitive (redact_fields sensitive event) clean)
