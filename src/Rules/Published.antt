-- ===== src/Rules/Published.antt =====
-- What app/rules.py guarantees of a rule set that was accepted for publishing, when it scores and when
-- it is loaded.
use fraud_detection.Prelude.{
  ℕ, ◌+◌, ◌*◌, ◌≤◌, ◌≡◌, refl, String, List, [], ◌∷◌, ◌++◌, map, length, arith, ◌≢◌, Bool-cases,
  inl, inr, str_eq, str_eq_iff, if◌then◌else◌,
}
use text.Mathlib.TextPositions.{eq_refl as str_eq_refl}
use fraud_detection.Prelude.Result.{Result, ok, err}
use fraud_detection.Rules.Numbers.{Numbers, NumberLaws}
use fraud_detection.Rules.Json.{Json, object}
use fraud_detection.Rules.Syntax.{boolean_type}
use fraud_detection.Rules.Operators.{truthy}
use fraud_detection.Rules.Evaluate.{evaluate, normalise_literal}
use fraud_detection.Rules.Typing.{HasType, Allowed, Allowed-bind, Any}
use fraud_detection.Rules.Supplies.{Conforms}
use fraud_detection.Rules.Normalise.{condition-Allowed}
use fraud_detection.Rules.Context.{
  EvaluationContext, Enrichment, IsGoodContext, as_variables, as_variables-Conforms,
}
use fraud_detection.Rules.RuleSet.{
  RuleDefinition, RuleSetDefinition, compiled, Assessment, InvalidRuleSet, max_rules, max_score,
  score_rules, evaluate_rule_set, RuleSetCodec, model_validate, parse_rule_set_definition,
  content_hash, LoadError, load_stored_definition, hash_mismatch, load_error,
}
use fraud_detection.Rules.Scoring.{fires, firing, total_score, evaluate_rule_set-eq, assessment}
use fraud_detection.Rules.Validity.{
  AllValid, IsValidRuleSet, compile, parse_rule_set_definition-IsValid,
}

module _ {N : Numbers} where
  firing-le :
      (variables : Json N) (rules : List (RuleDefinition N))
      → AllValid rules
      → total_score (firing variables (map compile rules)) ≤ length rules * max_score
  firing-le variables [] h = omega arith
  firing-le variables (rule ∷ rules) h =
      let score = h.0.score_ok in
      let rest = firing-le variables rules h.1 in
      elim (Bool-cases (fires variables (compile rule))) [
        | inl yes_fires ↦ rw yes_fires (omega arith)
        | inr silent ↦ rw silent (omega arith)
      ]

  -- The score of a decision by an accepted rule set is at most 50 000, which an SQL `Integer` holds.
  pub risk_score-le :
      (definition : RuleSetDefinition N) (context : EvaluationContext N) (a : Assessment)
      → IsValidRuleSet definition
      → evaluate_rule_set definition context ≡ ok a
      → a.risk_score ≤ max_rules * max_score
  unfolding compiled
  risk_score-le definition context a valid e =
      let (_, score_eq, _) = evaluate_rule_set-eq definition context a e in
      let bound = firing-le (as_variables context) definition.rules valid.rules_valid in
      let few = valid.few_rules in rw score_eq (omega arith)

  score_rules-Allowed :
      (laws : NumberLaws N) (variables : Json N) (supplied : Conforms variables)
      (rules : List (RuleDefinition N)) (triggered : List String) (risk : ℕ)
      → AllValid rules
      → Allowed
          (Any {A = List String × ℕ})
          (score_rules variables (map compile rules) triggered risk)
  unfolding score_rules
  score_rules-Allowed laws variables supplied [] triggered risk h = tt
  score_rules-Allowed laws variables supplied (rule ∷ rules) triggered risk h =
      Allowed-bind (λ v. HasType v boolean_type) Any
        (evaluate variables (normalise_literal (object rule.condition)))
        (λ fired.
          score_rules variables (map compile rules)
            (if truthy fired then triggered ++ (rule.code ∷ []) else triggered)
            (if truthy fired then risk + rule.score else risk))
        (condition-Allowed laws (object rule.condition) variables supplied h.0.condition_ok)
        (λ v _. score_rules-Allowed laws variables supplied rules _ _ h.1)

  -- An accepted rule set scores every transaction whose decimals are finite: `evaluate_rule_set` gives an
  -- assessment, or fails by an arithmetic error of a decimal, and in no other way.
  pub evaluate_rule_set-Allowed :
      (laws : NumberLaws N) (definition : RuleSetDefinition N) (context : EvaluationContext N)
      (e : Enrichment N)
      → IsValidRuleSet definition
      → IsGoodContext context e
      → Allowed (Any {A = Assessment}) (evaluate_rule_set definition context)
  unfolding evaluate_rule_set
  evaluate_rule_set-Allowed laws definition context e valid good =
      Allowed-bind (Any {A = List String × ℕ}) Any
        (score_rules (as_variables context) (compiled definition) [] 0)
        (λ r. ok (assessment definition r))
        (score_rules-Allowed laws (as_variables context) (as_variables-Conforms laws context e good)
          definition.rules [] 0 valid.rules_valid)
        (λ r _. tt)

  load_error-eq-ok :
      (codec : RuleSetCodec N) (r : Result InvalidRuleSet (RuleSetDefinition N))
      (definition : RuleSetDefinition N)
      → load_error codec r ≡ ok definition
      → r ≡ ok definition
  load_error-eq-ok codec (ok d) definition e = cc
  load_error-eq-ok codec (err x) definition e = cc

  loaded-IsValid :
      (codec : RuleSetCodec N) (body : Json N) (definition : RuleSetDefinition N)
      → load_error codec (parse_rule_set_definition codec body) ≡ ok definition
      → IsValidRuleSet definition
  loaded-IsValid codec body definition e =
      let parsed = load_error-eq-ok codec (parse_rule_set_definition codec body) definition e in
      (parse_rule_set_definition-IsValid codec body definition parsed).0

  not_loaded :
      (definition : RuleSetDefinition N)
      → ¬ (◌≡◌ {A = Result LoadError (RuleSetDefinition N)} (err hash_mismatch) (ok definition))
  not_loaded definition e = cc

  -- What is published is what a load gives back: the stored JSON of an accepted definition, with its
  -- content hash, loads as the same definition. The hypothesis says that pydantic validates what it
  -- dumped to the same definition.
  pub load-published :
      (codec : RuleSetCodec N) (body : Json N) (definition : RuleSetDefinition N)
      → model_validate codec (codec.dump definition) ≡ ok definition
      → parse_rule_set_definition codec body ≡ ok definition
      → load_stored_definition codec (codec.dump definition) (content_hash codec definition)
        ≡ ok definition
  unfolding load_stored_definition content_hash
  load-published codec body definition dumped e =
      let (_, (a, dry)) = parse_rule_set_definition-IsValid codec body definition e in
      rw (str_eq_refl (codec.json_hash (codec.dump definition)), dumped, dry)

  -- A stored body that hashes to something else than its stored hash is refused, whatever it holds; and
  -- what loads is a valid rule set.
  pub load_stored_definition-checked :
      (codec : RuleSetCodec N) (body : Json N) (stored_hash : String)
      → ((codec.json_hash body ≢ stored_hash)
          → load_stored_definition codec body stored_hash ≡ err hash_mismatch)
        × ((definition : RuleSetDefinition N)
            → load_stored_definition codec body stored_hash ≡ ok definition
            → (codec.json_hash body ≡ stored_hash) × IsValidRuleSet definition)
  unfolding load_stored_definition
  load_stored_definition-checked codec body stored_hash =
      elim (Bool-cases (str_eq (codec.json_hash body) stored_hash)) [
        | inl same ↦
            let hash_eq : codec.json_hash body ≡ stored_hash = (str_eq_iff _ _).0 same in
            (
              λ differ. absurd (differ hash_eq),
              λ definition e. (hash_eq, (loaded-IsValid codec body definition (rw same at e))),
            )
        | inr other ↦ (
          λ differ. rw other refl,
          λ definition e. absurd (not_loaded definition (rw other at e)),
        )
      ]
