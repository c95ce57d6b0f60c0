-- ===== src/Rules/Evaluate.antt =====
-- `_lookup`, `_evaluate` and `_normalise_literal` of app/rules.py.
use fraud_detection.Prelude.{
  String, Bool, true, false, Option, none, some, List, [], ◌∷◌, if◌then◌else◌,
}
use fraud_detection.Prelude.Result.{Result, ok, err, ◌>>=◌}
use fraud_detection.Prelude.Text.{split_dots}
use fraud_detection.Rules.Numbers.{Numbers}
use fraud_detection.Rules.Json.{
  Json, Items, Fields, null, boolean, int, float, decimal, text, array, object, nil, cons, end,
  field, get,
}
use fraud_detection.Rules.Syntax.{Operator, eager, all_of, any_of, branch, variable, operator_named}
use fraud_detection.Rules.Operators.{
  EvaluationError, crashed, missing_variable, truthy, apply_operator,
}

abbrev pub Value : Numbers → Type 0
Value N = Result EvaluationError (Json N)

module _ {N : Numbers} where
  -- the loop of `_lookup`; `none` is `_MISSING`
  unfoldable pub resolve : Json N → List String → Option (Json N)
  unfolding get
  resolve current [] = some current
  resolve (object fields) (part ∷ parts) = elim (get part fields) [
    | none ↦ none
    | some value ↦ resolve value parts
  ]
  resolve _ (part ∷ parts) = none

  -- `_lookup`
  unfoldable pub lookup : Json N → String → Option (Json N)
  unfolding resolve split_dots
  lookup context name = resolve context (split_dots name)

  -- the value of a variable, or what its default (or its absence) gives
  abbrev pub or_default : Option (Json N) → Value N → Value N
  or_default none default = default
  or_default (some value) default = ok value

  -- What follows the name of an operation: one outcome for each way to treat its arguments.
  unfoldable pub perform :
      Option Operator
      → (Unit {0} → Value N)
      → (Unit {0} → Result EvaluationError Bool)
      → (Unit {0} → Result EvaluationError Bool)
      → (Unit {0} → Value N)
      → (Unit {0} → Result EvaluationError (Items N))
      → Value N
  unfolding apply_operator
  perform none as_variable as_all as_any as_branch as_items = err crashed
  perform (some variable) as_variable as_all as_any as_branch as_items = as_variable tt
  perform (some all_of) as_variable as_all as_any as_branch as_items =
      as_all tt >>= λ b. ok (boolean b)
  perform (some any_of) as_variable as_all as_any as_branch as_items =
      as_any tt >>= λ b. ok (boolean b)
  perform (some branch) as_variable as_all as_any as_branch as_items = as_branch tt
  perform (some (eager op)) as_variable as_all as_any as_branch as_items =
      as_items tt >>= λ values. apply_operator op values

  module _ (context : Json N) where
    unfoldable mutual
      unfolding perform lookup operator_named truthy

      -- `_evaluate`
      pub evaluate : Json N → Value N
      evaluate null = ok null
      evaluate (boolean b) = ok (boolean b)
      evaluate (int z) = ok (int z)
      evaluate (float x) = ok (float x)
      evaluate (decimal x) = ok (decimal x)
      evaluate (text s) = ok (text s)
      evaluate (array items) = evaluate_items items >>= λ values. ok (array values)
      evaluate (object fields) = evaluate_fields fields

      pub evaluate_items : Items N → Result EvaluationError (Items N)
      evaluate_items nil = ok nil
      evaluate_items (cons node items) =
          evaluate node >>= λ v. (evaluate_items items >>= λ vs. ok (cons v vs))

      -- an operation: `_operator_args`, then the operator
      pub evaluate_fields : Fields N → Value N
      evaluate_fields (field name (array args) end) =
          perform (operator_named name) (λ _. evaluate_variable args) (λ _. evaluate_all args)
            (λ _. evaluate_any args) (λ _. evaluate_branch args) (λ _. evaluate_items args)
      evaluate_fields (field name arg end) =
          perform (operator_named name) (λ _. evaluate_bare arg)
            (λ _. evaluate arg >>= λ v. ok (truthy v)) (λ _. evaluate arg >>= λ v. ok (truthy v))
            (λ _. err crashed) (λ _. evaluate arg >>= λ v. ok (cons v nil))
      evaluate_fields _ = err crashed

      -- `var` with its arguments
      pub evaluate_variable : Items N → Value N
      evaluate_variable nil = err crashed
      evaluate_variable (cons name nil) = evaluate_bare name
      evaluate_variable (cons (text name) (cons default nil)) =
          or_default (lookup context name) (evaluate default)
      evaluate_variable (cons (text name) (cons _ _)) =
          or_default (lookup context name) (err missing_variable)
      evaluate_variable (cons _ (cons _ _)) = err crashed

      -- `var` with a name alone; a name that is no text has no `split`
      pub evaluate_bare : Json N → Value N
      evaluate_bare (text name) = or_default (lookup context name) (err missing_variable)
      evaluate_bare _ = err crashed

      -- `all(bool(_evaluate(arg)) for arg in args)`
      pub evaluate_all : Items N → Result EvaluationError Bool
      evaluate_all nil = ok true
      evaluate_all (cons arg args) =
          let later = evaluate_all args in
          evaluate arg >>= λ v. if truthy v then later else ok false

      -- `any(bool(_evaluate(arg)) for arg in args)`
      pub evaluate_any : Items N → Result EvaluationError Bool
      evaluate_any nil = ok false
      evaluate_any (cons arg args) =
          let later = evaluate_any args in evaluate arg >>= λ v. if truthy v then ok true else later

      pub evaluate_branch : Items N → Value N
      evaluate_branch (cons condition (cons when_true (cons when_false nil))) =
          let first = evaluate when_true in
          let second = evaluate when_false in
          evaluate condition >>= λ v. if truthy v then first else second
      evaluate_branch _ = err crashed

  unfoldable mutual
    -- `_normalise_literal`
    pub normalise_literal : Json N → Json N
    normalise_literal null = null
    normalise_literal (boolean b) = boolean b
    normalise_literal (int z) = decimal (N.of_int z)
    normalise_literal (float x) = decimal (N.of_float x)
    normalise_literal (decimal x) = decimal x
    normalise_literal (text s) = text s
    normalise_literal (array items) = array (normalise_items items)
    normalise_literal (object fields) = object (normalise_fields fields)

    pub normalise_items : Items N → Items N
    normalise_items nil = nil
    normalise_items (cons x xs) = cons (normalise_literal x) (normalise_items xs)

    pub normalise_fields : Fields N → Fields N
    normalise_fields end = end
    normalise_fields (field k v fs) = field k (normalise_literal v) (normalise_fields fs)
