-- ===== src/Rules/Normalise.antt =====
-- `_normalise_literal` (app/rules.py) changes nothing that `visit` sees, so what was validated before
-- it is sound after it.
use fraud_detection.Prelude.{ℕ, suc, ◌≡◌, refl, ap, ◌∙◌, true, [], ◌∷◌, arith, if◌then◌else◌}
use fraud_detection.Prelude.Result.{Result, ok, err, ◌>>=◌, >>=-eq-ok}
use fraud_detection.Rules.Numbers.{Numbers, NumberLaws}
use fraud_detection.Rules.Json.{
  Json, Items, Fields, null, boolean, int, float, decimal, text, array, object, nil, cons, end,
  field, item_count,
}
use fraud_detection.Rules.Syntax.{
  operator_named, ValueType, boolean_type, same_type, InvalidRule, wrong_default, not_boolean,
}
use fraud_detection.Rules.Validate.{
  list_type, check_operation, check_bare, enter, variable_of, visit, visit_items, visit_fields,
  visit_variable, validate_expression,
}
use fraud_detection.Rules.Evaluate.{evaluate, normalise_literal, normalise_items, normalise_fields}
use fraud_detection.Rules.Typing.{HasType, Allowed, same_type-eq}
use fraud_detection.Rules.Supplies.{Conforms}
use fraud_detection.Rules.Soundness.{evaluate-Allowed}

accepted :
    (r : ValueType × ℕ)
    → ◌≡◌ {A = Result InvalidRule (Unit {0})}
        (if same_type r.0 boolean_type then ok tt else err not_boolean)
        (ok tt)
    → same_type r.0 boolean_type ≡ true
accepted r e = ground arith

module _ {N : Numbers} (laws : NumberLaws N) where
  item_count-normalise : (xs : Items N) → item_count (normalise_items xs) ≡ item_count xs
  unfolding normalise_literal
  item_count-normalise nil = refl
  item_count-normalise (cons x xs) = ap suc (item_count-normalise xs)

  variable_of-normalise : (x : Json N) → variable_of (normalise_literal x) ≡ variable_of x
  unfolding normalise_literal variable_of
  variable_of-normalise (text s) = refl
  variable_of-normalise _ = refl

  check_bare-normalise : (x : Json N) (n : ℕ) → check_bare (normalise_literal x) n ≡ check_bare x n
  unfolding normalise_literal check_bare
  check_bare-normalise (text s) n = refl
  check_bare-normalise _ n = refl

  mutual
    unfolding visit normalise_literal

    visit-normalise : (x : Json N) (d n : ℕ) → visit (normalise_literal x) d n ≡ visit x d n
    visit-normalise null d n = refl
    visit-normalise (boolean b) d n = refl
    visit-normalise (int z) d n = rw (laws.of_int_finite z) refl
    visit-normalise (float x) d n = refl
    visit-normalise (decimal x) d n = refl
    visit-normalise (text s) d n = refl
    visit-normalise (array items) d n = λ i. enter d n >>= λ m.
        (visit_items-normalise items (suc d) m i >>= λ r. (list_type r.0 >>= λ t. ok (t, r.1)))
    visit-normalise (object fields) d n =
        λ i. enter d n >>= λ m. visit_fields-normalise fields d m i

    visit_items-normalise :
        (xs : Items N) (d n : ℕ) → visit_items (normalise_items xs) d n ≡ visit_items xs d n
    visit_items-normalise nil d n = refl
    visit_items-normalise (cons x xs) d n = λ i. visit-normalise x d n i >>= λ r.
        (visit_items-normalise xs d r.1 i >>= λ rs. ok (r.0 ∷ rs.0, rs.1))

    visit_fields-normalise :
        (fs : Fields N) (d n : ℕ) → visit_fields (normalise_fields fs) d n ≡ visit_fields fs d n
    visit_fields-normalise (field name (array args) end) d n = λ i.
        check_operation (operator_named name) (item_count-normalise args i)
          (visit_variable-normalise args d n i) (visit_items-normalise args (suc d) n i)
    visit_fields-normalise (field name arg end) d n = λ i.
        check_operation (operator_named name) 1 (check_bare-normalise arg n i)
          (visit-normalise arg (suc d) n i >>= λ r. ok (r.0 ∷ [], r.1))
    visit_fields-normalise end d n = refl
    visit_fields-normalise (field name (array args) (field _ _ _)) d n = refl
    visit_fields-normalise (field name _ (field _ _ _)) d n = refl

    visit_variable-normalise :
        (xs : Items N) (d n : ℕ) → visit_variable (normalise_items xs) d n ≡ visit_variable xs d n
    visit_variable-normalise nil d n = refl
    visit_variable-normalise (cons name nil) d n = check_bare-normalise name n
    visit_variable-normalise (cons name (cons default rest)) d n = λ i.
        variable_of-normalise name i >>= λ v.
        (visit-normalise default (suc d) n i >>= λ r.
        if same_type r.0 v.type then ok (v.type, r.1) else err wrong_default)

  -- A condition that `validate_expression` accepts evaluates, with its literals normalised and in every
  -- context that supplies the variables of `VARIABLES`, to true or false or fails by an arithmetic
  -- error: no type error, no missing variable, no unknown operator and no other exception occurs.
  pub condition-Allowed :
      (condition context : Json N)
      → Conforms context
      → validate_expression condition ≡ ok tt
      → Allowed (λ v. HasType v boolean_type) (evaluate context (normalise_literal condition))
  unfolding validate_expression
  condition-Allowed condition context supplied e =
      let (r, e1, e2) = >>=-eq-ok (visit condition 1 0) _ e in
      let same = same_type-eq r.0 boolean_type (accepted r e2) in
      rw same at (
        evaluate-Allowed laws context supplied (normalise_literal condition) 1 0 r
          (visit-normalise condition 1 0 ∙ e1))
