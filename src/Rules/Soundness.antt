-- ===== src/Rules/Soundness.antt =====
-- A node that `visit` gives a type (app/rules.py) evaluates to a value of that type, or fails by an
-- arithmetic error, in every context that supplies the variables.
use fraud_detection.Prelude.{
  ℕ, suc, ◌≡◌, subst, sym, true, false, some, List, [], ◌∷◌, arith, if◌then◌else◌,
}
use fraud_detection.Prelude.Result.{ok, ◌>>=◌, >>=-eq-ok}
use fraud_detection.Rules.Numbers.{Numbers, NumberLaws}
use fraud_detection.Rules.Json.{
  Json, Items, Fields, null, boolean, int, float, decimal, text, array, object, nil, cons, end,
  field, item_count,
}
use fraud_detection.Rules.Syntax.{operator_named, ValueType}
use fraud_detection.Rules.Validate.{
  list_type, branch_type, visit, visit_items, visit_fields, visit_variable, enter,
}
use fraud_detection.Rules.Operators.{truthy}
use fraud_detection.Rules.Evaluate.{
  evaluate, evaluate_items, evaluate_fields, evaluate_variable, evaluate_all, evaluate_any,
  evaluate_branch,
}
use fraud_detection.Rules.Typing.{
  of_null, of_boolean, of_int, of_float, of_decimal, of_text, HaveTypes, no_args, more_args,
  Allowed, Allowed-bind, Any,
}
use fraud_detection.Rules.Operations.{IsOf}
use fraud_detection.Rules.Supplies.{Conforms}
use fraud_detection.Rules.Inversion.{literal-eq, finite-eq, if-Allowed, not_branch, second}
use fraud_detection.Rules.Arguments.{
  list_type-HasType, length-visit_items, visit_items-cons, operation-Allowed,
}
use fraud_detection.Rules.Variables.{evaluate_variable-Allowed, branch-Allowed, single-Allowed}

module _ {N : Numbers} where
  module _ (laws : NumberLaws N) where
    module _ (context : Json N) (supplied : Conforms context) where
      mutual
        unfolding visit evaluate

        pub evaluate-Allowed :
            (x : Json N) (d n : ℕ) (r : ValueType × ℕ)
            → visit x d n ≡ ok r
            → Allowed (IsOf laws r.0) (evaluate context x)
        evaluate-Allowed null d n r e = rw (← literal-eq (enter d n) e) of_null
        evaluate-Allowed (boolean b) d n r e = rw (← literal-eq (enter d n) e) (of_boolean b)
        evaluate-Allowed (int z) d n r e = rw (← literal-eq (enter d n) e) (of_int z)
        evaluate-Allowed (float x) d n r e =
            let (type_eq, finite) = finite-eq (N.is_finite (N.of_float x)) (enter d n) e in
            rw (← type_eq) (of_float x finite)
        evaluate-Allowed (decimal x) d n r e =
            let (type_eq, finite) = finite-eq (N.is_finite x) (enter d n) e in
            rw (← type_eq) (of_decimal x finite)
        evaluate-Allowed (text s) d n r e = rw (← literal-eq (enter d n) e) (of_text s)
        evaluate-Allowed (array items) d n r e =
            let (m, e1, e2) = >>=-eq-ok (enter d n) _ e in
            let (q, e3, e4) = >>=-eq-ok (visit_items items (suc d) m) _ e2 in
            let (t, e5, e6) = >>=-eq-ok (list_type q.0) _ e4 in
            let type_eq : t ≡ r.0 = cc in
            rw (← type_eq) (
              Allowed-bind (λ vs. HaveTypes vs q.0) (IsOf laws t) (evaluate_items context items)
                (λ values. ok (array values)) (evaluate_items-Allowed items (suc d) m q e3)
                (λ vs h. list_type-HasType h e5))
        evaluate-Allowed (object fields) d n r e =
            let (m, e1, e2) = >>=-eq-ok (enter d n) _ e in evaluate_fields-Allowed fields d m r e2

        evaluate_items-Allowed :
            (xs : Items N) (d n : ℕ) (r : List ValueType × ℕ)
            → visit_items xs d n ≡ ok r
            → Allowed (λ vs. HaveTypes vs r.0) (evaluate_items context xs)
        evaluate_items-Allowed nil d n r e = let shape : [] ≡ r.0 = cc in rw (← shape) no_args
        evaluate_items-Allowed (cons x xs) d n r e =
            let (h, rest, e1, e2, shape) = visit_items-cons x xs d n r e in
            rw shape (
              Allowed-bind (IsOf laws h.0) (λ vs. HaveTypes vs (h.0 ∷ rest.0)) (evaluate context x)
                (λ v. evaluate_items context xs >>= λ vs. ok (cons v vs))
                (evaluate-Allowed x d n h e1)
                (λ v hv.
                  Allowed-bind (λ vs. HaveTypes vs rest.0) (λ vs. HaveTypes vs (h.0 ∷ rest.0))
                    (evaluate_items context xs) (λ vs. ok (cons v vs))
                    (evaluate_items-Allowed xs d h.1 rest e2) (λ vs hvs. more_args hv hvs)))

        evaluate_all-Allowed :
            (xs : Items N) (d n : ℕ) (r : List ValueType × ℕ)
            → visit_items xs d n ≡ ok r
            → Allowed Any (evaluate_all context xs)
        evaluate_all-Allowed nil d n r e = tt
        evaluate_all-Allowed (cons x xs) d n r e =
            let (h, rest, e1, e2, shape) = visit_items-cons x xs d n r e in
            Allowed-bind (IsOf laws h.0) Any (evaluate context x)
              (λ v. if truthy v then evaluate_all context xs else ok false)
              (evaluate-Allowed x d n h e1)
              (λ v _.
                if-Allowed (truthy v) (evaluate_all context xs) (ok false)
                  (evaluate_all-Allowed xs d h.1 rest e2) tt)

        evaluate_any-Allowed :
            (xs : Items N) (d n : ℕ) (r : List ValueType × ℕ)
            → visit_items xs d n ≡ ok r
            → Allowed Any (evaluate_any context xs)
        evaluate_any-Allowed nil d n r e = tt
        evaluate_any-Allowed (cons x xs) d n r e =
            let (h, rest, e1, e2, shape) = visit_items-cons x xs d n r e in
            Allowed-bind (IsOf laws h.0) Any (evaluate context x)
              (λ v. if truthy v then ok true else evaluate_any context xs)
              (evaluate-Allowed x d n h e1)
              (λ v _.
                if-Allowed (truthy v) (ok true) (evaluate_any context xs) tt
                  (evaluate_any-Allowed xs d h.1 rest e2))

        evaluate_branch-Allowed :
            (xs : Items N) (d n : ℕ) (r : List ValueType × ℕ) (t : ValueType)
            → visit_items xs d n ≡ ok r
            → branch_type r.0 ≡ ok t
            → Allowed (IsOf laws t) (evaluate_branch context xs)
        evaluate_branch-Allowed (cons c (cons a (cons b nil))) d n r t e bt =
            branch-Allowed laws context supplied c a b d n r t (evaluate-Allowed c d)
              (evaluate-Allowed a d) (evaluate-Allowed b d) e bt
        evaluate_branch-Allowed nil d n r t e bt =
            absurd (not_branch r.0 t (length-visit_items {N = N} nil d n r e) (omega arith) bt)
        evaluate_branch-Allowed (cons c nil) d n r t e bt =
            absurd
              (not_branch r.0 t (length-visit_items {N = N} (cons c nil) d n r e) (omega arith) bt)
        evaluate_branch-Allowed (cons c (cons a nil)) d n r t e bt = absurd (
            not_branch r.0 t (length-visit_items {N = N} (cons c (cons a nil)) d n r e)
              (omega arith) bt)
        evaluate_branch-Allowed (cons c (cons a (cons b (cons x xs)))) d n r t e bt = absurd (
            not_branch r.0 t
              (length-visit_items {N = N} (cons c (cons a (cons b (cons x xs)))) d n r e)
              (omega arith) bt)

        evaluate_fields-Allowed :
            (fields : Fields N) (d n : ℕ) (r : ValueType × ℕ)
            → visit_fields fields d n ≡ ok r
            → Allowed (IsOf laws r.0) (evaluate_fields context fields)
        evaluate_fields-Allowed (field name (array args) end) d n r e =
            operation-Allowed laws (operator_named name) (item_count args) r
              (visit_variable args d n) (visit_items args (suc d) n)
              (λ _. evaluate_variable context args) (λ _. evaluate_all context args)
              (λ _. evaluate_any context args) (λ _. evaluate_branch context args)
              (λ _. evaluate_items context args)
              (λ few visited.
                evaluate_variable-Allowed laws context supplied args d n r
                  (second-Allowed args (suc d)) few visited)
              (λ ts m visited. (
                length-visit_items args (suc d) n (ts, m) visited,
                evaluate_items-Allowed args (suc d) n (ts, m) visited,
              ))
              (λ ts m. evaluate_all-Allowed args (suc d) n (ts, m))
              (λ ts m. evaluate_any-Allowed args (suc d) n (ts, m))
              (λ ts m. evaluate_branch-Allowed args (suc d) n (ts, m) r.0) e
        evaluate_fields-Allowed (field name arg end) d n r e =
            single-Allowed laws context supplied (operator_named name) arg (suc d) n r
              (evaluate-Allowed arg (suc d) n) e
        evaluate_fields-Allowed _ d n r e = cc

        second-Allowed :
            (xs : Items N) (d : ℕ) (x : Json N) (m : ℕ) (q : ValueType × ℕ)
            → second xs ≡ some x
            → visit x d m ≡ ok q
            → Allowed (IsOf laws q.0) (evaluate context x)
        second-Allowed nil d x m q s e = cc
        second-Allowed (cons y nil) d x m q s e = cc
        second-Allowed (cons y (cons z rest)) d x m q s e =
            let same : z ≡ x = cc in
            subst (λ w. Allowed (IsOf laws q.0) (evaluate context w)) same
              (evaluate-Allowed z d m q (subst (λ w. visit w d m ≡ ok q) (sym same) e))
