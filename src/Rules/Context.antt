-- ===== src/Rules/Context.antt =====
-- `EvaluationContext` of app/rules.py, and the `Enrichment` features of app/events.py that it carries.
use fraud_detection.Prelude.{
  ℕ, ◌≡◌, refl, String, Bool, true, false, Option, none, some, List, [], ◌∷◌, arith, str_eq,
  if◌then◌else◌,
}
use fraud_detection.Prelude.Int.{pos}
use fraud_detection.Rules.Numbers.{Numbers, NumberLaws}
use fraud_detection.Rules.Json.{
  Json, Fields, null, boolean, int, decimal, text, object, end, field, get,
}
use fraud_detection.Rules.Syntax.{Variable, variable_table, number_type, boolean_type, text_type}
use fraud_detection.Rules.Evaluate.{lookup, normalise_literal}
use fraud_detection.Rules.Typing.{of_boolean, of_decimal, of_text}
use fraud_detection.Rules.Supplies.{Conforms, Supplied}

-- The value of one feature of an event's `Enrichment`.
pub data Feature (N : Numbers) : Type 0 where
  quantity : N.Decimal → Feature N
  count : ℕ → Feature N
  flag : Bool → Feature N

abbrev pub feature_value : {N : Numbers} → Feature N → Json N
feature_value (quantity x) = decimal x
feature_value (count n) = int (pos n)
feature_value (flag b) = boolean b

pub record Enrichment (N : Numbers) : Type 0 where
  pub distance_from_last_tx_km : Option N.Decimal
  pub minutes_since_last_tx : Option ℕ
  pub user_historical_avg_spend : Option N.Decimal
  pub is_new_merchant_for_user : Option Bool
  pub is_travel_itinerary_active : Option Bool

abbrev pub feature : {N : Numbers} {A : Type 0} → (A → Feature N) → Option A → Option (Feature N)
feature f none = none
feature f (some a) = some (f a)

abbrev pub features : {N : Numbers} → Enrichment N → List (String × Option (Feature N))
features e =
    ("distance_from_last_tx_km", feature quantity e.distance_from_last_tx_km)
    ∷ ("minutes_since_last_tx", feature count e.minutes_since_last_tx)
    ∷ ("user_historical_avg_spend", feature quantity e.user_historical_avg_spend)
    ∷ ("is_new_merchant_for_user", feature flag e.is_new_merchant_for_user)
    ∷ ("is_travel_itinerary_active", feature flag e.is_travel_itinerary_active)
    ∷ []

module _ {N : Numbers} where
  unfoldable pub present : List (String × Option (Feature N)) → Fields N
  present [] = end
  present ((name, none) ∷ rest) = present rest
  present ((name, some f) ∷ rest) = field name (feature_value f) (present rest)

  -- `enrichment.model_dump(exclude_none=True)`
  unfoldable pub dump_enrichment : Enrichment N → Fields N
  unfolding present
  dump_enrichment e = present (features e)

pub record EvaluationContext (N : Numbers) : Type 0 where
  pub amount : N.Decimal
  pub currency : String
  pub category : String
  pub prior_count : ℕ
  pub prior_amount : N.Decimal
  pub channel : Option String
  pub country : Option String
  pub enrichment : Fields N

module _ {N : Numbers} where
  -- `{name: _normalise_literal(value) for name, value in ... if value is not None}`
  unfoldable pub normalise_present : Fields N → Fields N
  unfolding normalise_literal
  normalise_present end = end
  normalise_present (field name null rest) = normalise_present rest
  normalise_present (field name value rest) =
      field name (normalise_literal value) (normalise_present rest)

  abbrev pub optional_text : String → Option String → Fields N → Fields N
  optional_text name none rest = rest
  optional_text name (some s) rest = field name (text s) rest

  -- `EvaluationContext.as_variables`
  unfoldable pub as_variables : EvaluationContext N → Json N
  unfolding normalise_present
  as_variables context = object (
      field "amount" (decimal context.amount) (
        field "currency" (text context.currency) (
          field "category" (text context.category) (
            field "velocity"
              (object (
                field "prior_count" (decimal (N.of_int (pos context.prior_count)))
                  (field "prior_amount" (decimal context.prior_amount) end)))
              (field "enrichment" (object (normalise_present context.enrichment)) (
                optional_text "channel" context.channel
                  (optional_text "country" context.country end)))))))

  -- the first feature of the name, normalised
  abbrev or_else : Option (Feature N) → Option (Json N) → Option (Json N)
  or_else none other = other
  or_else (some f) other = some (normalise_literal (feature_value f))

  abbrev first_present : String → List (String × Option (Feature N)) → Option (Json N)
  first_present name [] = none
  first_present name ((key, o) ∷ rest) =
      if str_eq key name then or_else o (first_present name rest) else first_present name rest

  get-normalise_present :
      (name : String) (table : List (String × Option (Feature N)))
      → get name (normalise_present (present table)) ≡ first_present name table
  unfolding get normalise_present present
  get-normalise_present name [] = refl
  get-normalise_present name ((key, none) ∷ rest) = ground (arith, get-normalise_present name rest)
  get-normalise_present name ((key, some (quantity x)) ∷ rest) =
      ground (arith, get-normalise_present name rest)
  get-normalise_present name ((key, some (count n)) ∷ rest) =
      ground (arith, get-normalise_present name rest)
  get-normalise_present name ((key, some (flag b)) ∷ rest) =
      ground (arith, get-normalise_present name rest)

-- The decimals of a context are finite, and its enrichment is one that an event carries.
pub record IsGoodContext {N : Numbers} (context : EvaluationContext N) (e : Enrichment N)
    : Type 0 where
  pub amount_finite : N.is_finite context.amount ≡ true
  pub prior_amount_finite : N.is_finite context.prior_amount ≡ true
  pub distance_finite : (x : N.Decimal) → e.distance_from_last_tx_km ≡ some x → N.is_finite x ≡ true
  pub spend_finite : (x : N.Decimal) → e.user_historical_avg_spend ≡ some x → N.is_finite x ≡ true
  pub enrichment_eq : context.enrichment ≡ dump_enrichment e

module _ {N : Numbers} (laws : NumberLaws N) where
  abbrev optional_number : Variable
  optional_number = record { type = number_type; required = false }

  abbrev optional_flag : Variable
  optional_flag = record { type = boolean_type; required = false }

  abbrev optional_name : Variable
  optional_name = record { type = text_type; required = false }

  quantity-Supplied :
      (o : Option N.Decimal)
      → ((x : N.Decimal) → o ≡ some x → N.is_finite x ≡ true)
      → Supplied optional_number (or_else {N = N} (feature quantity o) none)
  unfolding normalise_literal
  quantity-Supplied none h = refl
  quantity-Supplied (some x) h = of_decimal x (h x refl)

  count-Supplied :
      (o : Option ℕ) → Supplied optional_number (or_else {N = N} (feature count o) none)
  unfolding normalise_literal
  count-Supplied none = refl
  count-Supplied (some n) = of_decimal _ (laws.of_int_finite (pos n))

  flag-Supplied : (o : Option Bool) → Supplied optional_flag (or_else {N = N} (feature flag o) none)
  unfolding normalise_literal
  flag-Supplied none = refl
  flag-Supplied (some b) = of_boolean b

  -- what `_lookup` finds below `enrichment`
  abbrev enrichment_value : EvaluationContext N → String → Option (Json N)
  enrichment_value context name = get name (normalise_present context.enrichment)

  channel-Supplied :
      (channel country : Option String)
      → Supplied optional_name (
          get {N = N} "channel"
            (optional_text "channel" channel (optional_text "country" country end)))
  unfolding get
  channel-Supplied (some s) country = of_text s
  channel-Supplied none none = refl
  channel-Supplied none (some s) = refl

  country-Supplied :
      (channel country : Option String)
      → Supplied optional_name (
          get {N = N} "country"
            (optional_text "channel" channel (optional_text "country" country end)))
  unfolding get
  country-Supplied none none = refl
  country-Supplied none (some s) = of_text s
  country-Supplied (some c) none = refl
  country-Supplied (some c) (some s) = of_text s

  feature-Supplied :
      (context : EvaluationContext N) (e : Enrichment N) (v : Variable) (name : String)
      → context.enrichment ≡ dump_enrichment e
      → Supplied v (first_present name (features e))
      → Supplied v (enrichment_value context name)
  unfolding dump_enrichment
  feature-Supplied context e v name same h = rw (same, get-normalise_present name (features e)) h

  -- a name of one part that the variables have, and any name below one of them
  resolve_found : (o : Option (Json N)) → elim o [ none ↦ none | some value ↦ some value ] ≡ o
  resolve_found none = refl
  resolve_found (some value) = refl

  -- The variables of every context whose decimals are finite and whose enrichment is an event's supply
  -- all that `VARIABLES` declares, with its types.
  pub as_variables-Conforms :
      (context : EvaluationContext N) (e : Enrichment N)
      → IsGoodContext context e
      → Conforms (as_variables context)
  unfolding Conforms variable_table lookup as_variables
  as_variables-Conforms context e good = (
    of_decimal context.amount good.amount_finite,
    (
      of_text context.currency,
      (
        of_text context.category,
        (
          of_decimal _ (laws.of_int_finite (pos context.prior_count)),
          (
            of_decimal context.prior_amount good.prior_amount_finite,
            (
              rw resolve_found (channel-Supplied context.channel context.country),
              (
                rw resolve_found (country-Supplied context.channel context.country),
                (
                  rw resolve_found (
                      feature-Supplied context e optional_number "distance_from_last_tx_km"
                        good.enrichment_eq
                        (quantity-Supplied e.distance_from_last_tx_km good.distance_finite)),
                  (
                    rw resolve_found (
                        feature-Supplied context e optional_number "minutes_since_last_tx"
                          good.enrichment_eq (count-Supplied e.minutes_since_last_tx)),
                    (
                      rw resolve_found (
                          feature-Supplied context e optional_number "user_historical_avg_spend"
                            good.enrichment_eq
                            (quantity-Supplied e.user_historical_avg_spend good.spend_finite)),
                      (
                        rw resolve_found (
                            feature-Supplied context e optional_flag "is_new_merchant_for_user"
                              good.enrichment_eq (flag-Supplied e.is_new_merchant_for_user)),
                        (
                          rw resolve_found (
                              feature-Supplied context e optional_flag "is_travel_itinerary_active"
                                good.enrichment_eq (flag-Supplied e.is_travel_itinerary_active)),
                          tt,
                        ),
                      ),
                    ),
                  ),
                ),
              ),
            ),
          ),
        ),
      ),
    ),
  )
