-- ===== src/Rules/Variables.antt =====
-- The operations on variables and branches, and those with a single argument (app/rules.py), evaluate
-- to their type.
use fraud_detection.Prelude.{
  ℕ, suc, ◌≡◌, refl, sym, ap, String, length, true, false, Option, none, some, List, [], ◌∷◌, arith,
  inl, inr, Bool-cases, Option-cases, if◌then◌else◌,
}
use fraud_detection.Prelude.Result.{ok, err, ◌>>=◌, >>=-eq-ok}
use fraud_detection.Rules.Numbers.{Numbers, NumberLaws}
use fraud_detection.Rules.Json.{Json, Items, text, nil, cons, item_count}
use fraud_detection.Rules.Syntax.{Operator, variable, takes, ValueType, Variable, variable_table}
use fraud_detection.Rules.Validate.{
  branch_type, check_operation, variable_of, check_bare, check_default, visit, visit_items,
  visit_variable,
}
use fraud_detection.Rules.Operators.{truthy, crashed}
use fraud_detection.Rules.Evaluate.{
  lookup, Value, or_default, perform, evaluate, evaluate_variable, evaluate_bare, evaluate_branch,
}
use fraud_detection.Rules.Typing.{HasType, HaveTypes, no_args, more_args, Allowed, Allowed-bind}
use fraud_detection.Rules.Operations.{IsOf}
use fraud_detection.Rules.Supplies.{Supplied, Conforms, named-Supplied}
use fraud_detection.Rules.Inversion.{
  required-eq-ok, default-eq-ok, length_zero, branch_type-eq-ok, not_branch, second, found_variable,
  three_too_many,
}
use fraud_detection.Rules.Arguments.{
  length-visit_items, visit_items-cons, truthy-Allowed, operation-Allowed,
}

module _ {N : Numbers} where
  module _ (laws : NumberLaws N) where
    module _ (context : Json N) (supplied : Conforms context) where
      -- the name of a variable, and what the context supplies for it
      variable_of-Supplied :
          (name : String) (v : Variable)
          → variable_of {N = N} (text name) ≡ ok v
          → Supplied v (lookup context name)
      unfolding variable_of Conforms
      variable_of-Supplied name v e =
          named-Supplied context name v variable_table supplied (found_variable N name v e)

      or_default-Allowed :
          (v : Variable) (found : Option (Json N)) (default : Value N)
          → Supplied v found
          → Allowed (IsOf laws v.type) default
          → Allowed (IsOf laws v.type) (or_default found default)
      or_default-Allowed v none default h hd = hd
      or_default-Allowed v (some value) default h hd = h

      evaluate_bare-Allowed :
          (name : Json N) (n : ℕ) (r : ValueType × ℕ)
          → check_bare name n ≡ ok r
          → Allowed (IsOf laws r.0) (evaluate_bare context name)
      unfolding check_bare evaluate
      evaluate_bare-Allowed (text name) n r e =
          let (v, e1, e2) = >>=-eq-ok (variable_of {N = N} (text name)) _ e in
          let (needed, type_eq) = required-eq-ok v n r e2 in
          elim (Option-cases (lookup context name)) [
            | inl absent ↦
                let s = variable_of-Supplied name v e1 in
                let optional : v.required ≡ false = rw absent at s in cc
            | inr (value, present) ↦
                let s = variable_of-Supplied name v e1 in
                let good : HasType value v.type = rw present at s in rw (present, ← type_eq) good
          ]
      evaluate_bare-Allowed _ n r e = cc

      pub evaluate_variable-Allowed :
          (args : Items N) (d n : ℕ) (r : ValueType × ℕ)
          → ((x : Json N) (m : ℕ) (q : ValueType × ℕ)
              → second args ≡ some x
              → visit x (suc d) m ≡ ok q
              → Allowed (IsOf laws q.0) (evaluate context x))
          → takes variable (item_count args) ≡ true
          → visit_variable args d n ≡ ok r
          → Allowed (IsOf laws r.0) (evaluate_variable context args)
      unfolding visit check_default evaluate
      evaluate_variable-Allowed nil d n r ih few e = cc
      evaluate_variable-Allowed (cons name nil) d n r ih few e = evaluate_bare-Allowed name n r e
      evaluate_variable-Allowed (cons (text name) (cons default nil)) d n r ih few e =
          let (v, e1, e2) = >>=-eq-ok (variable_of {N = N} (text name)) _ e in
          let (q, e3, e4) = >>=-eq-ok (visit default (suc d) n) _ e2 in
          let (same, type_eq) = default-eq-ok v q r e4 in
          rw (← type_eq) (
            or_default-Allowed v (lookup context name) (evaluate context default)
              (variable_of-Supplied name v e1) (rw same at (ih default n q refl e3)))
      evaluate_variable-Allowed (cons name (cons default nil)) d n r ih few e = cc
      evaluate_variable-Allowed (cons name (cons default (cons x rest))) d n r ih few e =
          absurd (three_too_many (item_count rest) few)

      pub branch-Allowed :
          (c a b : Json N) (d n : ℕ) (r : List ValueType × ℕ) (t : ValueType)
          → ((m : ℕ) (q : ValueType × ℕ)
              → visit c d m ≡ ok q
              → Allowed (IsOf laws q.0) (evaluate context c))
          → ((m : ℕ) (q : ValueType × ℕ)
              → visit a d m ≡ ok q
              → Allowed (IsOf laws q.0) (evaluate context a))
          → ((m : ℕ) (q : ValueType × ℕ)
              → visit b d m ≡ ok q
              → Allowed (IsOf laws q.0) (evaluate context b))
          → visit_items (cons c (cons a (cons b nil))) d n ≡ ok r
          → branch_type r.0 ≡ ok t
          → Allowed (IsOf laws t) (evaluate_branch context (cons c (cons a (cons b nil))))
      unfolding evaluate
      branch-Allowed c a b d n r t hc ha hb e bt =
          let (qc, restc, ec, ec', ic) = visit_items-cons c _ d n r e in
          let (qa, resta, ea, ea', ia) = visit_items-cons a _ d qc.1 restc ec' in
          let (qb, restb, eb, eb', ib) = visit_items-cons b nil d qa.1 resta ea' in
          let last : restb.0 ≡ [] = length_zero restb.0 (length-visit_items nil d qb.1 restb eb') in
          let (same, first_eq) = branch_type-eq-ok qc.0 qa.0 qb.0 t r.0 (cc) bt in
          Allowed-bind (IsOf laws qc.0) (IsOf laws t) (evaluate context c)
            (λ v. if truthy v then evaluate context a else evaluate context b) (hc n qc ec)
            (λ v _. elim (Bool-cases (truthy v)) [
              | inl yes_taken ↦ rw (yes_taken, ← first_eq) (ha qc.1 qa ea)
              | inr not_taken ↦ rw (not_taken, ← first_eq, same) (hb qa.1 qb eb)
            ])

      pub single-Allowed :
          (o : Option Operator) (arg : Json N) (d n : ℕ) (r : ValueType × ℕ)
          → ((q : ValueType × ℕ)
              → visit arg d n ≡ ok q
              → Allowed (IsOf laws q.0) (evaluate context arg))
          → check_operation o 1 (check_bare arg n) (visit arg d n >>= λ q. ok (q.0 ∷ [], q.1))
            ≡ ok r
          → Allowed (IsOf laws r.0) (
              perform o
                (λ _. evaluate_bare context arg)
                (λ _. evaluate context arg >>= λ v. ok (truthy v))
                (λ _. evaluate context arg >>= λ v. ok (truthy v))
                (λ _. err crashed)
                (λ _. evaluate context arg >>= λ v. ok (cons v nil)))
      single-Allowed o arg d n r ih e =
          operation-Allowed laws o 1 r (check_bare arg n)
            (visit arg d n >>= λ q. ok (q.0 ∷ [], q.1)) (λ _. evaluate_bare context arg)
            (λ _. evaluate context arg >>= λ v. ok (truthy v))
            (λ _. evaluate context arg >>= λ v. ok (truthy v)) (λ _. err crashed)
            (λ _. evaluate context arg >>= λ v. ok (cons v nil))
            (λ _ bare. evaluate_bare-Allowed arg n r bare)
            (λ ts m visited.
              let (q, e1, e2) = >>=-eq-ok (visit arg d n) _ visited in
              let shape : q.0 ∷ [] ≡ ts = cc in
              (
                ap length (sym shape),
                rw (← shape) (
                    Allowed-bind (IsOf laws q.0) (λ vs. HaveTypes vs (q.0 ∷ []))
                      (evaluate context arg) (λ v. ok (cons v nil)) (ih q e1)
                      (λ v hv. more_args hv no_args)),
              ))
            (λ ts m visited.
              let (q, e1, e2) = >>=-eq-ok (visit arg d n) _ visited in
              truthy-Allowed (IsOf laws q.0) (evaluate context arg) (ih q e1))
            (λ ts m visited.
              let (q, e1, e2) = >>=-eq-ok (visit arg d n) _ visited in
              truthy-Allowed (IsOf laws q.0) (evaluate context arg) (ih q e1))
            (λ ts m visited bt.
              let (q, e1, e2) = >>=-eq-ok (visit arg d n) _ visited in
              let shape : q.0 ∷ [] ≡ ts = cc in
              absurd (not_branch ts r.0 (ap length (sym shape)) (omega arith) bt))
            e
