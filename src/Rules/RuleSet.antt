-- ===== src/Rules/RuleSet.antt =====
-- Rule sets (app/rules.py): their validation, scoring, and the load of a stored one.
use Prim.Native.Char.{Char, code}
use fraud_detection.Prelude.{
  ℕ, suc, ◌+◌, String, Bool, true, false, Option, none, some, List, [], ◌∷◌, ◌++◌, map, length, ltb,
  leb, ◌&&◌, ◌||◌, ◌==◌, str_eq, not, if◌then◌else◌,
}
use fraud_detection.Prelude.Int.{ℤ, pos, negsuc}
use fraud_detection.Prelude.Result.{Result, ok, err, ◌>>=◌, ◌>>◌}
use fraud_detection.Rules.Numbers.{Numbers}
use fraud_detection.Rules.Json.{Json, Fields, object, end}
use fraud_detection.Rules.Syntax.{InvalidRule}
use fraud_detection.Rules.Validate.{validate_expression}
use fraud_detection.Rules.Operators.{EvaluationError, truthy}
use fraud_detection.Rules.Evaluate.{evaluate, normalise_literal}
use fraud_detection.Rules.Context.{EvaluationContext, as_variables}

-- `RuleDefinition` and `RuleSetDefinition` as they arrive, before their constraints are checked.
pub record RawRule (N : Numbers) : Type 0 where
  pub code : String
  pub description : String
  pub score : ℤ
  pub condition : Fields N

pub record RawRuleSet (N : Numbers) : Type 0 where
  pub velocity_window_seconds : ℤ
  pub review_threshold : ℤ
  pub reject_threshold : ℤ
  pub rules : List (RawRule N)

pub record RuleDefinition (N : Numbers) : Type 0 where
  pub code : String
  pub description : String
  pub score : ℕ
  pub condition : Fields N

pub record RuleSetDefinition (N : Numbers) : Type 0 where
  pub velocity_window_seconds : ℕ
  pub review_threshold : ℕ
  pub reject_threshold : ℕ
  pub rules : List (RuleDefinition N)

pub data Verdict : Type 0 where
  approved review rejected : Verdict

-- A failed constraint of pydantic's, or a failed dry run.
pub data InvalidRuleSet : Type 0 where
  bad_code bad_description bad_number bad_rule_count duplicate_codes bad_thresholds : InvalidRuleSet
  bad_shape : InvalidRuleSet
  bad_condition : InvalidRule → InvalidRuleSet
  failed_dry_run : EvaluationError → InvalidRuleSet

abbrev pub guard : {E : Type 0} → Bool → E → Result E (Unit {0})
guard true e = ok tt
guard false e = err e

-- the number of characters of a text
abbrev pub characters : String → ℕ
characters String.[] = 0
characters (String.◌∷◌ c s) = suc (characters s)

abbrev pub all_characters : (Char → Bool) → String → Bool
all_characters p String.[] = true
all_characters p (String.◌∷◌ c s) = p c && all_characters p s

abbrev pub is_upper : Char → Bool
is_upper c = leb b'A' (code c) && leb (code c) b'Z'

abbrev pub is_digit : Char → Bool
is_digit c = leb b'0' (code c) && leb (code c) b'9'

abbrev pub is_code_character : Char → Bool
is_code_character c = is_upper c || (is_digit c || (code c == b'_'))

-- `^[A-Z][A-Z0-9_]{2,63}$`
unfoldable pub code_matches : String → Bool
code_matches String.[] = false
code_matches (String.◌∷◌ c rest) =
    is_upper c
    && (leb 2 (characters rest)
        && (leb (characters rest) 63 && all_characters is_code_character rest))

-- `Field(ge=low)`, and with `le=high` in `in_range`
unfoldable pub at_least : ℕ → ℤ → Result InvalidRuleSet ℕ
at_least low (pos n) = if leb low n then ok n else err bad_number
at_least low (negsuc n) = err bad_number

unfoldable pub in_range : ℕ → ℕ → ℤ → Result InvalidRuleSet ℕ
unfolding at_least
in_range low high z = at_least low z >>= λ n. if leb n high then ok n else err bad_number

abbrev pub condition_error : Result InvalidRule (Unit {0}) → Result InvalidRuleSet (Unit {0})
condition_error (ok _) = ok tt
condition_error (err e) = err (bad_condition e)

abbrev pub holds_code : String → List String → Bool
holds_code c [] = false
holds_code c (d ∷ ds) = str_eq c d || holds_code c ds

-- `_unique_codes`: no code is listed twice
unfoldable pub unique_codes : List String → Bool
unique_codes [] = true
unique_codes (c ∷ cs) = not (holds_code c cs) && unique_codes cs

abbrev pub max_rules : ℕ
max_rules = 50

abbrev pub max_score : ℕ
max_score = 1000

module _ {N : Numbers} where
  -- `RuleDefinition.model_validate`
  unfoldable pub validate_rule : RawRule N → Result InvalidRuleSet (RuleDefinition N)
  unfolding code_matches in_range
  validate_rule raw = do
    guard (code_matches raw.code) bad_code
    guard (leb 1 (characters raw.description) && leb (characters raw.description) 500)
        bad_description
    score ← in_range 0 max_score raw.score
    condition_error (validate_expression (object raw.condition))
    ok (record {
      code = raw.code;
      description = raw.description;
      score = score;
      condition = raw.condition;
    })

  unfoldable pub validate_rules : List (RawRule N) → Result InvalidRuleSet (List (RuleDefinition N))
  unfolding validate_rule
  validate_rules [] = ok []
  validate_rules (raw ∷ raws) =
      validate_rule raw >>= λ rule. (validate_rules raws >>= λ rules. ok (rule ∷ rules))

  abbrev pub codes : List (RuleDefinition N) → List String
  codes rules = map (λ rule. rule.code) rules

  -- the constraints of `RuleSetDefinition`, then `_ordered_thresholds`
  unfoldable pub validate_rule_set : RawRuleSet N → Result InvalidRuleSet (RuleSetDefinition N)
  unfolding in_range validate_rules unique_codes
  validate_rule_set raw = do
    window ← in_range 1 86400 raw.velocity_window_seconds
    review_at ← at_least 1 raw.review_threshold
    reject_at ← at_least 1 raw.reject_threshold
    rules ← validate_rules raw.rules
    guard (leb 1 (length rules) && leb (length rules) max_rules) bad_rule_count
    guard (unique_codes (codes rules)) duplicate_codes
    guard (not (ltb reject_at review_at)) bad_thresholds
    ok (record {
      velocity_window_seconds = window;
      review_threshold = review_at;
      reject_threshold = reject_at;
      rules = rules;
    })

  -- `verdict_for`
  unfoldable pub verdict_for : RuleSetDefinition N → ℕ → Verdict
  verdict_for definition risk_score =
      if leb definition.reject_threshold risk_score
      then rejected
      else if leb definition.review_threshold risk_score
      then review
      else approved

pub record CompiledRule (N : Numbers) : Type 0 where
  pub code : String
  pub score : ℕ
  pub condition : Json N

-- `_compiled`, which `model_post_init` computes
unfoldable pub compiled : {N : Numbers} → RuleSetDefinition N → List (CompiledRule N)
compiled definition =
    map
      (λ rule. record {
        code = rule.code;
        score = rule.score;
        condition = normalise_literal (object rule.condition);
      })
      definition.rules

pub record Assessment : Type 0 where
  pub triggered_rules : List String
  pub risk_score : ℕ
  pub verdict : Verdict

-- `Assessment.is_fraud`
unfoldable pub is_fraud : Assessment → Bool
is_fraud assessment = elim assessment.verdict [ approved ↦ false | _ ↦ true ]

abbrev pub dry_run_error : Result EvaluationError Assessment → Result InvalidRuleSet (Unit {0})
dry_run_error (ok a) = ok tt
dry_run_error (err e) = err (failed_dry_run e)

module _ {N : Numbers} where
  -- the loop of `evaluate_rule_set`, over the rules fired so far and their score
  unfoldable pub score_rules :
      Json N → List (CompiledRule N) → List String → ℕ → Result EvaluationError (List String × ℕ)
  score_rules variables [] triggered risk_score = ok (triggered, risk_score)
  score_rules variables (rule ∷ rules) triggered risk_score =
      evaluate variables rule.condition >>= λ fired.
      score_rules variables rules
        (if truthy fired then triggered ++ (rule.code ∷ []) else triggered)
        (if truthy fired then risk_score + rule.score else risk_score)

  -- `evaluate_rule_set`
  unfoldable pub evaluate_rule_set :
      RuleSetDefinition N → EvaluationContext N → Result EvaluationError Assessment
  unfolding score_rules compiled verdict_for
  evaluate_rule_set definition context = do
    (triggered, risk_score) ← score_rules (as_variables context) (compiled definition) [] 0
    ok (record {
      triggered_rules = triggered;
      risk_score = risk_score;
      verdict = verdict_for definition risk_score;
    })

  -- `_DRY_RUN_CONTEXT`; `hundred` is `Decimal("100.00")`
  abbrev pub dry_run_context : N.Decimal → EvaluationContext N
  dry_run_context hundred = record {
    amount = hundred;
    currency = "ZAR";
    category = "GROCERIES";
    prior_count = 1;
    prior_amount = hundred;
    channel = none;
    country = none;
    enrichment = end;
  }

-- What pydantic and `hashlib` do for a rule set: read the fields of a JSON body, dump a definition as
-- JSON, and hash a JSON value's canonical text; and what a JSONB column of PostgreSQL gives back of a JSON
-- value, whose numbers it keeps as decimals, so that some floats come back in another notation.
pub record RuleSetCodec (N : Numbers) : Type 0 where
  pub read : Json N → Option (RawRuleSet N)
  pub dump : RuleSetDefinition N → Json N
  pub json_hash : Json N → String
  pub jsonb : Json N → Json N
  pub hundred : N.Decimal

pub data LoadError : Type 0 where
  hash_mismatch : LoadError
  invalid : InvalidRuleSet → LoadError

module _ {N : Numbers} (codec : RuleSetCodec N) where
  abbrev pub read_or_invalid : Option (RawRuleSet N) → Result InvalidRuleSet (RuleSetDefinition N)
  read_or_invalid none = err bad_shape
  read_or_invalid (some raw) = validate_rule_set raw

  -- `RuleSetDefinition.model_validate`
  unfoldable pub model_validate : Json N → Result InvalidRuleSet (RuleSetDefinition N)
  unfolding validate_rule_set
  model_validate body = read_or_invalid (codec.read body)

  -- `parse_rule_set_definition`
  unfoldable pub parse_rule_set_definition : Json N → Result InvalidRuleSet (RuleSetDefinition N)
  unfolding model_validate evaluate_rule_set
  parse_rule_set_definition body = do
    definition ← model_validate body
    dry_run_error (evaluate_rule_set definition (dry_run_context codec.hundred))
    ok definition

  -- `content_hash`
  unfoldable pub content_hash : RuleSetDefinition N → String
  content_hash definition = codec.json_hash (codec.dump definition)

  abbrev pub load_error :
      Result InvalidRuleSet (RuleSetDefinition N) → Result LoadError (RuleSetDefinition N)
  load_error (ok definition) = ok definition
  load_error (err e) = err (invalid e)

  -- `load_stored_definition`
  unfoldable pub load_stored_definition : Json N → String → Result LoadError (RuleSetDefinition N)
  unfolding parse_rule_set_definition
  load_stored_definition body stored_hash =
      if not (str_eq (codec.json_hash body) stored_hash)
      then err hash_mismatch
      else load_error (parse_rule_set_definition body)
