-- ===== src/Rules/Arguments.antt =====
-- What the checks of an operation's arguments (app/rules.py) say of their values.
use fraud_detection.Prelude.{
  ℕ, suc, ◌≡◌, subst, sym, ap, length, Bool, true, Option, none, some, List, [], ◌∷◌, arith,
}
use fraud_detection.Prelude.Result.{Result, ok, ◌>>=◌, >>=-eq-ok}
use fraud_detection.Rules.Numbers.{Numbers, NumberLaws}
use fraud_detection.Rules.Json.{Json, Items, boolean, array, nil, cons, item_count}
use fraud_detection.Rules.Syntax.{
  Operator, eager, all_of, any_of, branch, variable, takes, ValueType, boolean_type, empty_list,
  list_of, InvalidRule,
}
use fraud_detection.Rules.Validate.{
  all_same, list_type, branch_type, check_operation, Visited, visit, visit_items,
}
use fraud_detection.Rules.Operators.{EvaluationError, truthy, apply_operator}
use fraud_detection.Rules.Evaluate.{Value, perform}
use fraud_detection.Rules.Typing.{
  HasType, ListOf, of_boolean, of_nil, of_items, none_left, one_more, HaveTypes, no_args, more_args,
  Allowed, Allowed-bind, same_type-eq, Any, require-eq-ok,
}
use fraud_detection.Rules.Operations.{IsOf, apply_operator-Allowed}
use fraud_detection.Rules.Inversion.{typed-eq-ok}

module _ {N : Numbers} where
  all_same-ListOf :
      {vs : Items N} {t : ValueType} (ts : List ValueType)
      → HaveTypes vs ts
      → all_same t ts ≡ true
      → ListOf vs t
  all_same-ListOf [] no_args e = none_left
  all_same-ListOf {t = t} (u ∷ us) (more_args {xs = xs} h rest) e =
      let same : t ≡ u = same_type-eq t u (ground arith) in
      one_more (rw same h) (all_same-ListOf {vs = xs} us rest (ground arith))

  pub list_type-HasType :
      {vs : Items N} {ts : List ValueType} {t : ValueType}
      → HaveTypes vs ts
      → list_type ts ≡ ok t
      → HasType (array vs) t
  unfolding list_type
  list_type-HasType {t = t} no_args e = let same : empty_list ≡ t = cc in rw (← same) of_nil
  list_type-HasType {t = t} (more_args {t = u} {ts = us} h rest) e =
      let same : list_of u ≡ t = ground arith in
      rw (← same) (of_items h (all_same-ListOf us rest (ground arith)))

  pub length-visit_items :
      (xs : Items N) (d n : ℕ) (r : List ValueType × ℕ)
      → visit_items xs d n ≡ ok r
      → length r.0 ≡ item_count xs
  unfolding visit
  length-visit_items nil d n r e = cc
  length-visit_items (cons x xs) d n r e =
      let (h, e1, e2) = >>=-eq-ok (visit x d n) _ e in
      let (rest, e3, e4) = >>=-eq-ok (visit_items xs d h.1) _ e2 in
      let same : h.0 ∷ rest.0 ≡ r.0 = cc in
      rw (← same) (ap suc (length-visit_items xs d h.1 rest e3))

  pub visit_items-cons :
      (x : Json N) (xs : Items N) (d n : ℕ) (r : List ValueType × ℕ)
      → visit_items (cons x xs) d n ≡ ok r
      → (h : ValueType × ℕ) × (rest : List ValueType × ℕ) × (visit x d n ≡ ok h)
        × (visit_items xs d h.1 ≡ ok rest)
        × (r.0 ≡ h.0 ∷ rest.0)
  unfolding visit
  visit_items-cons x xs d n r e =
      let (h, e1, e2) = >>=-eq-ok (visit x d n) _ e in
      let (rest, e3, e4) = >>=-eq-ok (visit_items xs d h.1) _ e2 in (h, rest, e1, e3, cc)

  pub truthy-Allowed :
      (P : Json N → Type 0) (r : Value N)
      → Allowed P r
      → Allowed (Any {A = Bool}) (r >>= λ v. ok (truthy v))
  truthy-Allowed P r h = Allowed-bind P (Any {A = Bool}) r (λ v. ok (truthy v)) h (λ v _. tt)

  module _ (laws : NumberLaws N) where
    -- An operation, from what its arguments do under each way to treat them.
    pub operation-Allowed :
        (o : Option Operator) (count : ℕ) (r : ValueType × ℕ) (as_variable : Visited)
        (as_arguments : Result InvalidRule (List ValueType × ℕ)) (in_variable : Unit {0} → Value N)
        (in_all in_any : Unit {0} → Result EvaluationError Bool) (in_branch : Unit {0} → Value N)
        (in_items : Unit {0} → Result EvaluationError (Items N))
        → (takes variable count ≡ true
            → as_variable ≡ ok r
            → Allowed (IsOf laws r.0) (in_variable tt))
        → ((ts : List ValueType) (m : ℕ)
            → as_arguments ≡ ok (ts, m)
            → (length ts ≡ count) × Allowed (λ vs. HaveTypes vs ts) (in_items tt))
        → ((ts : List ValueType) (m : ℕ) → as_arguments ≡ ok (ts, m) → Allowed Any (in_all tt))
        → ((ts : List ValueType) (m : ℕ) → as_arguments ≡ ok (ts, m) → Allowed Any (in_any tt))
        → ((ts : List ValueType) (m : ℕ)
            → as_arguments ≡ ok (ts, m)
            → branch_type ts ≡ ok r.0
            → Allowed (IsOf laws r.0) (in_branch tt))
        → check_operation o count as_variable as_arguments ≡ ok r
        → Allowed (IsOf laws r.0) (perform o in_variable in_all in_any in_branch in_items)
    unfolding check_operation perform
    operation-Allowed none count r va args v all any br items hv hi hall hany hbr e = cc
    operation-Allowed (some variable) count r va args v all any br items hv hi hall hany hbr e =
        let enough : takes variable count ≡ true = ground arith in hv enough (ground arith)
    operation-Allowed (some all_of) count r va args v all any br items hv hi hall hany hbr e =
        let (ts, m, e1, e2) = typed-eq-ok all_of args r (ground arith) in
        let (same, t_eq) = require-eq-ok {t = boolean_type} {u = r.0} boolean_type ts e2 in
        rw (← t_eq) (
          Allowed-bind (Any {A = Bool}) (IsOf laws boolean_type) (all tt) (λ b. ok (boolean b))
            (hall ts m e1) (λ b _. of_boolean b))
    operation-Allowed (some any_of) count r va args v all any br items hv hi hall hany hbr e =
        let (ts, m, e1, e2) = typed-eq-ok any_of args r (ground arith) in
        let (same, t_eq) = require-eq-ok {t = boolean_type} {u = r.0} boolean_type ts e2 in
        rw (← t_eq) (
          Allowed-bind (Any {A = Bool}) (IsOf laws boolean_type) (any tt) (λ b. ok (boolean b))
            (hany ts m e1) (λ b _. of_boolean b))
    operation-Allowed (some branch) count r va args v all any br items hv hi hall hany hbr e =
        let (ts, m, e1, e2) = typed-eq-ok branch args r (ground arith) in hbr ts m e1 e2
    operation-Allowed (some (eager op)) count r va args v all any br items hv hi hall hany hbr e =
        let enough : takes (eager op) count ≡ true = ground arith in
        let (ts, m, e1, e2) = typed-eq-ok (eager op) args r (ground arith) in
        let (len, hvs) = hi ts m e1 in
        Allowed-bind (λ vs. HaveTypes vs ts) (IsOf laws r.0) (items tt) (λ vs. apply_operator op vs)
          hvs
          (λ vs h.
            apply_operator-Allowed laws op h
              (subst (λ k. takes (eager op) k ≡ true) (sym len) enough) e2)
