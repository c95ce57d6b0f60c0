-- ===== src/Rules/Scoring.antt =====
-- What `evaluate_rule_set` (app/rules.py) decides, against a description that does not loop.
use fraud_detection.Prelude.{
  ℕ, ◌+◌, ◌↔◌, ◌≤◌, ◌≡◌, sym, ap, ◌∙◌, String, Bool, false, List, [], ◌∷◌, ◌++◌, map, arith,
  Bool-cases, inl, inr, leb, if◌then◌else◌,
}
use mathlib.Core.List.{append-nil, append_assoc}
use fraud_detection.Prelude.Result.{Result, ok, err, >>=-eq-ok}
use fraud_detection.Rules.Numbers.{Numbers}
use fraud_detection.Rules.Json.{Json}
use fraud_detection.Rules.Operators.{EvaluationError, truthy}
use fraud_detection.Rules.Evaluate.{evaluate}
use fraud_detection.Rules.Context.{EvaluationContext, as_variables}
use fraud_detection.Rules.RuleSet.{
  RuleSetDefinition, CompiledRule, compiled, Assessment, is_fraud, verdict_for, score_rules,
  evaluate_rule_set, rejected,
}

module _ {N : Numbers} where
  fraud-verdict :
      (definition : RuleSetDefinition N) (a : Assessment)
      → definition.review_threshold ≤ definition.reject_threshold
      → a.verdict ≡ verdict_for definition a.risk_score
      → is_fraud a ≡ leb definition.review_threshold a.risk_score
  unfolding is_fraud verdict_for
  fraud-verdict definition a ordered same = rw same (ground arith)

  rejected-verdict :
      (definition : RuleSetDefinition N) (a : Assessment)
      → a.verdict ≡ verdict_for definition a.risk_score
      → (a.verdict ≡ rejected) ↔ (definition.reject_threshold ≤ a.risk_score)
  unfolding verdict_for
  rejected-verdict definition a same = (λ h. ground arith, λ h. ground arith)

  abbrev truth : Result EvaluationError (Json N) → Bool
  truth (ok v) = truthy v
  truth (err e) = false

  -- the rule's condition holds
  abbrev pub fires : Json N → CompiledRule N → Bool
  fires variables rule = truth (evaluate variables rule.condition)

  -- the rules that fire, in the order of the rule set
  abbrev pub firing : Json N → List (CompiledRule N) → List (CompiledRule N)
  firing variables [] = []
  firing variables (rule ∷ rules) =
      if fires variables rule then rule ∷ firing variables rules else firing variables rules

  abbrev pub total_score : List (CompiledRule N) → ℕ
  total_score [] = 0
  total_score (rule ∷ rules) = rule.score + total_score rules

  abbrev pub rule_codes : List (CompiledRule N) → List String
  rule_codes rules = map (λ rule. rule.code) rules

  score_rules-eq :
      (variables : Json N) (rules : List (CompiledRule N)) (triggered : List String) (risk : ℕ)
      (r : List String × ℕ)
      → score_rules variables rules triggered risk ≡ ok r
      → (r.0 ≡ triggered ++ rule_codes (firing variables rules))
        × (r.1 ≡ risk + total_score (firing variables rules))
  unfolding score_rules
  score_rules-eq variables [] triggered risk r e =
      let shape : ◌≡◌ {A = List String × ℕ} (triggered, risk) r = cc in
      (rw (← shape) (sym (append-nil triggered)), rw (← shape) (omega arith))
  score_rules-eq variables (rule ∷ rules) triggered risk r e =
      let (v, e1, e2) = >>=-eq-ok (evaluate variables rule.condition) _ e in
      let same : fires variables rule ≡ truthy v = ap truth e1 in
      elim (Bool-cases (truthy v)) [
        | inl yes_fires ↦
            let ih =
              score_rules-eq variables rules (triggered ++ (rule.code ∷ [])) (risk + rule.score) r
                (rw yes_fires at e2) in
            rw (same, yes_fires)
              (
                ih.0
                    ∙ append_assoc triggered (rule.code ∷ []) (rule_codes (firing variables rules)),
                omega (arith, ih.1),
              )
        | inr silent ↦
            rw (same, silent) (score_rules-eq variables rules triggered risk r (rw silent at e2))
      ]

  abbrev pub assessment : RuleSetDefinition N → List String × ℕ → Assessment
  assessment definition r = record {
    triggered_rules = r.0;
    risk_score = r.1;
    verdict = verdict_for definition r.1;
  }

  assessment-eq :
      (definition : RuleSetDefinition N) (r : List String × ℕ) (a : Assessment)
      → ◌≡◌ {A = Result EvaluationError Assessment} (ok (assessment definition r)) (ok a)
      → (a.triggered_rules ≡ r.0) × (a.risk_score ≡ r.1) × (a.verdict ≡ verdict_for definition r.1)
  assessment-eq definition r a e = let same : assessment definition r ≡ a = cc in (cc, cc, cc)

  -- Every rule is evaluated: the decision lists exactly the rules whose condition holds, in the order of
  -- the rule set, its score is the sum of their scores, and its verdict is that of the sum.
  pub evaluate_rule_set-eq :
      (definition : RuleSetDefinition N) (context : EvaluationContext N) (a : Assessment)
      → evaluate_rule_set definition context ≡ ok a
      → (a.triggered_rules ≡ rule_codes (firing (as_variables context) (compiled definition)))
        × (a.risk_score ≡ total_score (firing (as_variables context) (compiled definition)))
        × (a.verdict ≡ verdict_for definition a.risk_score)
  unfolding evaluate_rule_set
  evaluate_rule_set-eq definition context a e =
      let (r, e1, e2) =
        >>=-eq-ok (score_rules (as_variables context) (compiled definition) [] 0) _ e in
      let (rules_eq, score_eq) =
        score_rules-eq (as_variables context) (compiled definition) [] 0 r e1 in
      let shape = assessment-eq definition r a e2 in
      (shape.0 ∙ rules_eq, shape.1 ∙ score_eq ∙ omega arith, rw shape.1 shape.2)

  -- With ordered thresholds a transaction counts as fraud exactly when its score reaches the review
  -- threshold, and is rejected exactly when it reaches the reject threshold.
  pub is_fraud-eq :
      (definition : RuleSetDefinition N) (context : EvaluationContext N) (a : Assessment)
      → definition.review_threshold ≤ definition.reject_threshold
      → evaluate_rule_set definition context ≡ ok a
      → (is_fraud a ≡ leb definition.review_threshold a.risk_score)
        × ((a.verdict ≡ rejected) ↔ (definition.reject_threshold ≤ a.risk_score))
  is_fraud-eq definition context a ordered e =
      let (_, _, same) = evaluate_rule_set-eq definition context a e in
      (fraud-verdict definition a ordered same, rejected-verdict definition a same)
