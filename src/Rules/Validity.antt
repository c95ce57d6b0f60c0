-- ===== src/Rules/Validity.antt =====
-- What the checks of app/rules.py guarantee of a rule set that was accepted.
use fraud_detection.Prelude.{
  String, str_eq, str_eq_iff, ◌≢◌, sym, ◌∙◌, ℕ, subst, ◌≤◌, ◌≡◌, refl, Bool, true, false, List, [],
  ◌∷◌, length, leb→le, arith, leb, ltb, not, ◌&&◌, Option, none, some,
}
use fraud_detection.Prelude.Int.{ℤ, pos, negsuc}
use fraud_detection.Prelude.Result.{Result, ok, err, ◌>>◌, >>=-eq-ok, bind-ok}
use fraud_detection.Rules.Numbers.{Numbers}
use fraud_detection.Rules.Json.{Json, object}
use fraud_detection.Rules.Syntax.{InvalidRule}
use mathlib.Core.Bool.{true≢false}
use fraud_detection.Rules.Limits.{nodes, levels, validate_expression-le}
use fraud_detection.Rules.Validate.{max_expression_depth, max_expression_nodes, validate_expression}
use fraud_detection.Rules.Operators.{EvaluationError}
use fraud_detection.Rules.Evaluate.{normalise_literal}
use fraud_detection.Rules.RuleSet.{
  holds_code, RawRule, RawRuleSet, RuleDefinition, RuleSetDefinition, CompiledRule, Assessment,
  InvalidRuleSet, bad_code, bad_description, bad_rule_count, duplicate_codes, bad_thresholds, guard,
  at_least, in_range, code_matches, unique_codes, codes, characters, max_rules, max_score,
  condition_error, validate_rule, validate_rules, validate_rule_set, evaluate_rule_set,
  RuleSetCodec, parse_rule_set_definition, dry_run_error, dry_run_context, read_or_invalid,
}

-- A rule within every bound, whose condition `validate_expression` accepts, so that it is within the limits.
pub record IsValidRule {N : Numbers} (rule : RuleDefinition N) : Type 0 where
  pub code_ok : code_matches rule.code ≡ true
  pub description_low : 1 ≤ characters rule.description
  pub description_high : characters rule.description ≤ 500
  pub score_ok : rule.score ≤ max_score
  pub condition_ok : validate_expression (object rule.condition) ≡ ok tt
  pub condition_few : nodes (object rule.condition) ≤ max_expression_nodes
  pub condition_shallow : levels (object rule.condition) ≤ max_expression_depth

abbrev pub AllValid : {N : Numbers} → List (RuleDefinition N) → Type 0
AllValid [] = Unit
AllValid (rule ∷ rules) = IsValidRule rule × AllValid rules

-- no code is listed twice
abbrev IsNew : String → List String → Type 0
IsNew c [] = Unit
IsNew c (d ∷ ds) = (c ≢ d) × IsNew c ds

abbrev pub AreDistinct : List String → Type 0
AreDistinct [] = Unit
AreDistinct (c ∷ cs) = IsNew c cs × AreDistinct cs

pub record IsValidRuleSet {N : Numbers} (definition : RuleSetDefinition N) : Type 0 where
  pub window_low : 1 ≤ definition.velocity_window_seconds
  pub window_high : definition.velocity_window_seconds ≤ 86400
  pub review_positive : 1 ≤ definition.review_threshold
  pub thresholds_ordered : definition.review_threshold ≤ definition.reject_threshold
  pub some_rules : 1 ≤ length definition.rules
  pub few_rules : length definition.rules ≤ max_rules
  pub codes_distinct : AreDistinct (codes definition.rules)
  pub rules_valid : AllValid definition.rules

both_true : (a b : Bool) → (a && b) ≡ true → (a ≡ true) × (b ≡ true)
both_true a b h = ground arith

holds_code-IsNew : (c : String) (cs : List String) → not (holds_code c cs) ≡ true → IsNew c cs
holds_code-IsNew c [] h = tt
holds_code-IsNew c (d ∷ ds) h =
    let other : str_eq c d ≡ false = ground arith in
    (
      λ same. true≢false (sym ((str_eq_iff c d).1 same) ∙ other),
      holds_code-IsNew c ds (ground (arith, h, other)),
    )

unique_codes-AreDistinct : (cs : List String) → unique_codes cs ≡ true → AreDistinct cs
unfolding unique_codes
unique_codes-AreDistinct [] h = tt
unique_codes-AreDistinct (c ∷ cs) h =
    let (new, rest) = both_true (not (holds_code c cs)) (unique_codes cs) h in
    (holds_code-IsNew c cs new, unique_codes-AreDistinct cs rest)

guard-eq-ok : {E : Type 0} (b : Bool) (e : E) → guard b e ≡ ok tt → b ≡ true
guard-eq-ok true e h = refl
guard-eq-ok false e h = cc

-- the first action of a block, whose result is not used
>>-eq-ok :
    {E B : Type 0} (b : Bool) (e : E) (rest : Result E B) {r : B}
    → (guard b e >> rest) ≡ ok r
    → (b ≡ true) × (rest ≡ ok r)
>>-eq-ok true e rest h = (refl, h)
>>-eq-ok false e rest h = cc

at_least-le : (low : ℕ) (z : ℤ) (n : ℕ) → at_least low z ≡ ok n → low ≤ n
unfolding at_least
at_least-le low (pos m) n e = ground arith
at_least-le low (negsuc m) n e = cc

in_range-le : (low high : ℕ) (z : ℤ) (n : ℕ) → in_range low high z ≡ ok n → (low ≤ n) × (n ≤ high)
unfolding in_range
in_range-le low high z n e =
    let (m, e1, e2) = >>=-eq-ok (at_least low z) _ e in
    let bound = at_least-le low z m e1 in ground arith

condition_error-eq : (r : Result InvalidRule (Unit {0})) → condition_error r ≡ ok tt → r ≡ ok tt
condition_error-eq (ok tt) e = refl
condition_error-eq (err x) e = cc

not_lt : (a b : ℕ) → not (ltb a b) ≡ true → b ≤ a
not_lt a b h = ground arith

abbrev pub compile : {N : Numbers} → RuleDefinition N → CompiledRule N
compile rule = record {
  code = rule.code;
  score = rule.score;
  condition = normalise_literal (object rule.condition);
}

dry_run-eq-ok :
    (r : Result EvaluationError Assessment)
    → dry_run_error r ≡ ok tt
    → (a : Assessment) × (r ≡ ok a)
dry_run-eq-ok (ok a) e = (a, refl)
dry_run-eq-ok (err x) e = cc

module _ {N : Numbers} where
  abbrev rule_of : RawRule N → ℕ → RuleDefinition N
  rule_of raw score = record {
    code = raw.code;
    description = raw.description;
    score = score;
    condition = raw.condition;
  }

  validate_rule-IsValidRule :
      (raw : RawRule N) (rule : RuleDefinition N) → validate_rule raw ≡ ok rule → IsValidRule rule
  unfolding validate_rule
  validate_rule-IsValidRule raw rule e =
      let (code_ok, e1) = >>-eq-ok (code_matches raw.code) bad_code _ e in
      let (described, e2) =
        >>-eq-ok (leb 1 (characters raw.description) && leb (characters raw.description) 500)
          bad_description _ e1 in
      let (score, e3, e4) = >>=-eq-ok (in_range 0 max_score raw.score) _ e2 in
      let (_, e5, e6) =
        >>=-eq-ok (condition_error (validate_expression (object raw.condition))) _ e4 in
      let (low, high) =
        both_true (leb 1 (characters raw.description)) (leb (characters raw.description) 500)
          described in
      let accepted = condition_error-eq _ e5 in
      let limits = validate_expression-le (object raw.condition) accepted in
      let shape : rule_of raw score ≡ rule = cc in
      rw (← shape) (record {
        code_ok = code_ok;
        description_low = leb→le 1 (characters raw.description) low;
        description_high = leb→le (characters raw.description) 500 high;
        score_ok = (in_range-le 0 max_score raw.score score e3).1;
        condition_ok = accepted;
        condition_few = limits.0;
        condition_shallow = limits.1;
      })

  validate_rules-AllValid :
      (raws : List (RawRule N)) (rules : List (RuleDefinition N))
      → validate_rules raws ≡ ok rules
      → AllValid rules
  unfolding validate_rules
  validate_rules-AllValid [] rules e = let shape : [] ≡ rules = cc in rw (← shape) tt
  validate_rules-AllValid (raw ∷ raws) rules e =
      let (rule, e1, e2) = >>=-eq-ok (validate_rule raw) _ e in
      let (rest, e3, e4) = >>=-eq-ok (validate_rules raws) _ e2 in
      let shape : rule ∷ rest ≡ rules = cc in
      rw (← shape) (validate_rule-IsValidRule raw rule e1, validate_rules-AllValid raws rest e3)

  abbrev set_of : ℕ → ℕ → ℕ → List (RuleDefinition N) → RuleSetDefinition N
  set_of window review_at reject_at rules = record {
    velocity_window_seconds = window;
    review_threshold = review_at;
    reject_threshold = reject_at;
    rules = rules;
  }

  -- the last three checks
  abbrev finish : ℕ → ℕ → ℕ → List (RuleDefinition N) → Result InvalidRuleSet (RuleSetDefinition N)
  finish window review_at reject_at rules = do
    guard (leb 1 (length rules) && leb (length rules) max_rules) bad_rule_count
    guard (unique_codes (codes rules)) duplicate_codes
    guard (not (ltb reject_at review_at)) bad_thresholds
    ok (set_of window review_at reject_at rules)

  finish-IsValid :
      (window review_at reject_at : ℕ) (rules : List (RuleDefinition N))
      (definition : RuleSetDefinition N)
      → (1 ≤ window) × (window ≤ 86400)
      → 1 ≤ review_at
      → AllValid rules
      → finish window review_at reject_at rules ≡ ok definition
      → IsValidRuleSet definition
  finish-IsValid window review_at reject_at rules definition hw hr valid e =
      let (counted, e1) =
        >>-eq-ok (leb 1 (length rules) && leb (length rules) max_rules) bad_rule_count _ e in
      let (unique, e2) = >>-eq-ok (unique_codes (codes rules)) duplicate_codes _ e1 in
      let (ordered, e3) = >>-eq-ok (not (ltb reject_at review_at)) bad_thresholds _ e2 in
      let shape : set_of window review_at reject_at rules ≡ definition = cc in
      let counts = both_true _ _ counted in
      rw (← shape) (record {
        window_low = hw.0;
        window_high = hw.1;
        review_positive = hr;
        thresholds_ordered = not_lt reject_at review_at ordered;
        some_rules = leb→le _ _ counts.0;
        few_rules = leb→le _ _ counts.1;
        codes_distinct = unique_codes-AreDistinct (codes rules) unique;
        rules_valid = valid;
      })

  validate_rule_set-IsValid :
      (raw : RawRuleSet N) (definition : RuleSetDefinition N)
      → validate_rule_set raw ≡ ok definition
      → IsValidRuleSet definition
  unfolding validate_rule_set
  validate_rule_set-IsValid raw definition e =
      bind-ok (in_range 1 86400 raw.velocity_window_seconds) _ e λ window e1 f1.
        bind-ok (at_least 1 raw.review_threshold) _ f1 λ review_at e2 f2.
          bind-ok (at_least 1 raw.reject_threshold) _ f2 λ reject_at e3 f3.
            bind-ok (validate_rules raw.rules) _ f3 λ rules e4 f4.
              finish-IsValid window review_at reject_at rules definition
                (in_range-le 1 86400 raw.velocity_window_seconds window e1)
                (at_least-le 1 raw.review_threshold review_at e2)
                (validate_rules-AllValid raw.rules rules e4) f4

  read-IsValid :
      (codec : RuleSetCodec N) (found : Option (RawRuleSet N)) (definition : RuleSetDefinition N)
      → read_or_invalid codec found ≡ ok definition
      → IsValidRuleSet definition
  read-IsValid codec none definition e = cc
  read-IsValid codec (some raw) definition e = validate_rule_set-IsValid raw definition e

  abbrev Accepted : RuleSetCodec N → RuleSetDefinition N → Type 0
  Accepted codec d =
      IsValidRuleSet d
      × ((a : Assessment) × (evaluate_rule_set d (dry_run_context codec.hundred) ≡ ok a))

  -- A rule set that `parse_rule_set_definition` accepts meets every declared bound: its window is one
  -- second to a day, 1 ≤ review ≤ reject, it has 1 to 50 rules with distinct codes. Each rule has a
  -- code of the pattern, a description of 1 to 500 characters, a score of at most 1000, and a condition that
  -- `validate_expression` accepts, of at most 400 nodes on at most 24 levels. Its dry run gave an assessment.
  pub parse_rule_set_definition-IsValid :
      (codec : RuleSetCodec N) (body : Json N) (definition : RuleSetDefinition N)
      → parse_rule_set_definition codec body ≡ ok definition
      → IsValidRuleSet definition
        × ((a : Assessment) × (evaluate_rule_set definition (dry_run_context codec.hundred) ≡ ok a))
  unfolding parse_rule_set_definition
  parse_rule_set_definition-IsValid codec body definition e =
      bind-ok (read_or_invalid codec (codec.read body)) _ e λ parsed e1 f1.
        bind-ok (dry_run_error (evaluate_rule_set parsed (dry_run_context codec.hundred))) _ f1
          λ _ e2 f2.
            let shape : parsed ≡ definition = cc in
            subst (Accepted codec) shape
              (read-IsValid codec (codec.read body) parsed e1, dry_run-eq-ok _ e2)
