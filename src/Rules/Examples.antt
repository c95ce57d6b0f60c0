-- ===== src/Rules/Examples.antt =====
-- Rule sets of app/rules.py at concrete inputs: decimals are integers here, and a float is a number.
use fraud_detection.Prelude.{
  ◌≤◌, ℕ, ◌+◌, ◌≡◌, ◌≢◌, refl, Bool, true, false, Option, none, some, [], ◌∷◌, Ordering, String,
}
use Prim.Native.Nat.{compare}
use fraud_detection.Prelude.Int.{ℤ, pos, pos_part, neg_part, ◌+ℤ◌, ◌-ℤ◌, ◌*ℤ◌}
use fraud_detection.Prelude.Result.{ok, err}
use fraud_detection.Rules.Numbers.{Numbers, NumberLaws}
use fraud_detection.Rules.Json.{Json, Fields, null, int, text, array, object, nil, cons, end, field}
use fraud_detection.Rules.Syntax.{boolean_type}
use fraud_detection.Rules.Validate.{validate_expression}
use fraud_detection.Rules.Limits.{nodes, levels, validate_expression-le}
use fraud_detection.Rules.Evaluate.{evaluate, normalise_literal}
use fraud_detection.Rules.Typing.{HasType, Allowed, Any}
use fraud_detection.Rules.Normalise.{condition-Allowed}
use fraud_detection.Rules.Context.{
  EvaluationContext, Enrichment, IsGoodContext, dump_enrichment, as_variables,
  as_variables-Conforms,
}
use fraud_detection.Rules.RuleSet.{
  RawRuleSet, RuleSetDefinition, Assessment, RuleSetCodec, hash_mismatch, review, compiled,
  verdict_for, dry_run_context, evaluate_rule_set, model_validate, parse_rule_set_definition,
  load_stored_definition,
}
use fraud_detection.Rules.Scoring.{firing, total_score, rule_codes, evaluate_rule_set-eq}
use fraud_detection.Rules.Validity.{IsValidRuleSet, parse_rule_set_definition-IsValid}
use fraud_detection.Rules.Published.{evaluate_rule_set-Allowed, load_stored_definition-checked}

abbrev compare_ℤ : ℤ → ℤ → Ordering
compare_ℤ a b = compare (pos_part a + neg_part b) (pos_part b + neg_part a)

abbrev is_eq : Ordering → Bool
is_eq Ordering.eq = true
is_eq _ = false

abbrev pub whole : Numbers
whole = record {
  Decimal = ℤ;
  Float = ℕ;
  of_int = λ z. z;
  of_float = λ n. pos n;
  exact = λ n. pos n;
  one = pos 1;
  nought = pos 0;
  is_finite = λ z. true;
  is_zero = λ z. is_eq (compare_ℤ z (pos 0));
  same = λ a b. is_eq (compare_ℤ a b);
  order = λ a b. some (compare_ℤ a b);
  add = λ a b. some (a +ℤ b);
  sub = λ a b. some (a -ℤ b);
  mul = λ a b. some (a *ℤ b);
  neg = λ a. some (pos 0 -ℤ a);
}

whole_laws : NumberLaws whole
whole_laws = record {
  of_int_finite = λ z. refl;
  one_finite = refl;
  nought_finite = refl;
  order_finite = λ a b _ _. (compare_ℤ a b, refl);
  add_finite = λ a b c _ _ _. refl;
  sub_finite = λ a b c _ _ _. refl;
  mul_finite = λ a b c _ _ _. refl;
  neg_finite = λ a c _ _. refl;
}

-- `{">=": [{"var": "amount"}, 50]}`
abbrev large : Fields whole
large =
    field ">="
      (array (
        cons (object (field "var" (array (cons (text "amount") nil)) end))
          (cons (int (pos 50)) nil)))
      end

abbrev pub raw_rules : RawRuleSet whole
raw_rules = record {
  velocity_window_seconds = pos 3600;
  review_threshold = pos 50;
  reject_threshold = pos 80;
  rules = (record { code = "BIG"; description = "large"; score = pos 60; condition = large }) ∷ [];
}

abbrev pub rules : RuleSetDefinition whole
rules = record {
  velocity_window_seconds = 3600;
  review_threshold = 50;
  reject_threshold = 80;
  rules = (record { code = "BIG"; description = "large"; score = 60; condition = large }) ∷ [];
}

-- every object reads as the rule set above
abbrev read_rules : Json whole → Option (RawRuleSet whole)
read_rules (object fields) = some raw_rules
read_rules _ = none

abbrev hash_of : Json whole → String
hash_of null = "null"
hash_of _ = "rules"

abbrev pub plain_codec : RuleSetCodec whole
plain_codec = record {
  read = read_rules;
  dump = λ definition. object end;
  json_hash = hash_of;
  jsonb = λ body. body;
  hundred = pos 100;
}

abbrev purchase : EvaluationContext whole
purchase = record {
  amount = pos 75;
  currency = "ZAR";
  category = "GROCERIES";
  prior_count = 0;
  prior_amount = pos 0;
  channel = none;
  country = some "ZA";
  enrichment = end;
}

abbrev no_enrichment : Enrichment whole
no_enrichment = record {
  distance_from_last_tx_km = none;
  minutes_since_last_tx = none;
  user_historical_avg_spend = none;
  is_new_merchant_for_user = none;
  is_travel_itinerary_active = none;
}

purchase-IsGoodContext : IsGoodContext purchase no_enrichment
unfolding dump_enrichment
purchase-IsGoodContext = record {
  amount_finite = refl;
  prior_amount_finite = refl;
  distance_finite = λ x e. refl;
  spend_finite = λ x e. refl;
  enrichment_eq = refl;
}

abbrev flagged : Assessment
flagged = record { triggered_rules = "BIG" ∷ []; risk_score = 60; verdict = review }

purchase_assessment : evaluate_rule_set rules purchase ≡ ok flagged
unfolding evaluate_rule_set evaluate normalise_literal as_variables
purchase_assessment = refl

pub parsed_rules : parse_rule_set_definition plain_codec (object end) ≡ ok rules
unfolding parse_rule_set_definition validate_expression evaluate normalise_literal as_variables
parsed_rules = refl

pub dumped_rules : model_validate plain_codec (object end) ≡ ok rules
unfolding model_validate validate_expression
dumped_rules = refl

parse_rule_set_definition-IsValid_example :
    IsValidRuleSet rules
    × ((a : Assessment) × (evaluate_rule_set rules (dry_run_context (pos 100)) ≡ ok a))
parse_rule_set_definition-IsValid_example =
    parse_rule_set_definition-IsValid plain_codec (object end) rules parsed_rules

rules-IsValid : IsValidRuleSet rules
rules-IsValid = (parse_rule_set_definition-IsValid plain_codec (object end) rules parsed_rules).0

evaluate_rule_set-Allowed_example :
    Allowed (Any {A = Assessment}) (evaluate_rule_set rules purchase)
evaluate_rule_set-Allowed_example =
    evaluate_rule_set-Allowed whole_laws rules purchase no_enrichment rules-IsValid
      purchase-IsGoodContext

evaluate_rule_set-eq_example :
    ("BIG" ∷ [] ≡ rule_codes (firing (as_variables purchase) (compiled rules)))
    × (60 ≡ total_score (firing (as_variables purchase) (compiled rules)))
    × (review ≡ verdict_for rules 60)
evaluate_rule_set-eq_example = evaluate_rule_set-eq rules purchase flagged purchase_assessment

large_valid : validate_expression {N = whole} (object large) ≡ ok tt
unfolding validate_expression
large_valid = refl

condition-Allowed_example :
    Allowed
      (λ v. HasType v boolean_type)
      (evaluate (as_variables purchase) (normalise_literal (object large)))
condition-Allowed_example =
    condition-Allowed whole_laws (object large) (as_variables purchase)
      (as_variables-Conforms whole_laws purchase no_enrichment purchase-IsGoodContext) large_valid

load_stored_definition-checked_example :
    ((plain_codec.json_hash (object end) ≢ "other")
      → load_stored_definition plain_codec (object end) "other" ≡ err hash_mismatch)
    × ((definition : RuleSetDefinition whole)
        → load_stored_definition plain_codec (object end) "other" ≡ ok definition
        → (plain_codec.json_hash (object end) ≡ "other") × IsValidRuleSet definition)
load_stored_definition-checked_example =
    load_stored_definition-checked plain_codec (object end) "other"

validate_expression-le_example :
    (nodes {N = whole} (object large) ≤ 400) × (levels {N = whole} (object large) ≤ 24)
validate_expression-le_example = validate_expression-le (object large) large_valid
