-- ===== src/Rules/Operators.antt =====
-- The operators of `_OPERATORS` in app/rules.py, on evaluated arguments.
use fraud_detection.Prelude.{
  String, Bool, true, false, Option, none, some, List, [], ◌∷◌, ◌&&◌, ◌||◌, not, str_eq, ◌==◌,
  Ordering, if◌then◌else◌,
}
use fraud_detection.Prelude.Int.{ℤ, pos, negsuc}
use fraud_detection.Prelude.Result.{Result, ok, err, ◌>>=◌}
use fraud_detection.Prelude.Text.{is_part_of}
use fraud_detection.Rules.Numbers.{Numbers}
use fraud_detection.Rules.Json.{
  Json, Items, Fields, null, boolean, int, float, decimal, text, array, object, nil, cons, end,
  field, get, field_count,
}
use fraud_detection.Rules.Syntax.{
  EagerOperator, equals, not_equals, greater, greater_eq, less, less_eq, negate, member, plus,
  minus, times, minimum, maximum,
}

-- `RuleEvaluationError` by its cause, and `crashed` for any other exception of Python's.
pub data EvaluationError : Type 0 where
  expects_numbers arithmetic : EagerOperator → EvaluationError
  expects_container missing_variable crashed : EvaluationError

abbrev pub is_zero_int : ℤ → Bool
is_zero_int (pos n) = n == 0
is_zero_int (negsuc n) = false

-- an operation of a decimal context, which may raise an `ArithmeticError`
abbrev pub raised : {A : Type 0} → EagerOperator → Option A → Result EvaluationError A
raised op none = err (arithmetic op)
raised op (some a) = ok a

-- The loops below run over decimals `D`.
module _ {D : Type 0} where
  -- `all(check(left, right) for left, right in pairwise(values))` of `_compare`
  unfoldable pub pairwise :
      (D → D → Option Ordering)
      → EagerOperator
      → (Ordering → Bool)
      → List D
      → Result EvaluationError Bool
  pairwise order op check [] = ok true
  pairwise order op check (x ∷ []) = ok true
  pairwise order op check (x ∷ y ∷ rest) =
      let later = pairwise order op check (y ∷ rest) in
      raised op (order x y) >>= λ o. if check o then later else ok false

  -- `sum(values, start)` and the loop of `_multiply`
  unfoldable pub fold_decimals :
      (D → D → Option D) → EagerOperator → D → List D → Result EvaluationError D
  fold_decimals f op acc [] = ok acc
  fold_decimals f op acc (x ∷ xs) = raised op (f acc x) >>= λ next. fold_decimals f op next xs

  -- `min` and `max`: a later value replaces the best so far if it is strictly better
  unfoldable pub best_of :
      (D → D → Option Ordering)
      → EagerOperator
      → (Ordering → Bool)
      → D
      → List D
      → Result EvaluationError D
  best_of order op better best [] = ok best
  best_of order op better best (x ∷ xs) =
      raised op (order x best) >>= λ o. best_of order op better (if better o then x else best) xs

  -- `_subtract`, of the negation and the difference of a decimal context
  unfoldable pub subtract : (D → Option D) → (D → D → Option D) → List D → Result EvaluationError D
  subtract neg sub [] = err crashed
  subtract neg sub (x ∷ []) = raised minus (neg x)
  subtract neg sub (x ∷ y ∷ rest) = raised minus (sub x y)

  unfoldable pub extreme :
      (D → D → Option Ordering)
      → EagerOperator
      → (Ordering → Bool)
      → List D
      → Result EvaluationError D
  unfolding best_of
  extreme order op better [] = err crashed
  extreme order op better (x ∷ xs) = best_of order op better x xs

abbrev pub is_less : Ordering → Bool
is_less o = elim o [ Ordering.lt ↦ true | _ ↦ false ]

abbrev pub is_greater : Ordering → Bool
is_greater o = elim o [ Ordering.gt ↦ true | _ ↦ false ]

module _ {N : Numbers} where
  -- `bool(value)`
  unfoldable pub truthy : Json N → Bool
  truthy null = false
  truthy (boolean b) = b
  truthy (int z) = not (is_zero_int z)
  truthy (float x) = not (N.is_zero (N.of_float x))
  truthy (decimal x) = not (N.is_zero x)
  truthy (text s) = not (str_eq s "")
  truthy (array nil) = false
  truthy (array (cons x xs)) = true
  truthy (object end) = false
  truthy (object (field k v fs)) = true

  -- `_to_decimal`
  unfoldable pub to_decimal : EagerOperator → Json N → Result EvaluationError N.Decimal
  to_decimal op (int z) = ok (N.of_int z)
  to_decimal op (float x) = ok (N.of_float x)
  to_decimal op (decimal x) = ok x
  to_decimal op _ = err (expects_numbers op)

  -- `_numbers`
  unfoldable pub numbers : EagerOperator → Items N → Result EvaluationError (List N.Decimal)
  unfolding to_decimal
  numbers op nil = ok []
  numbers op (cons x xs) = to_decimal op x >>= λ d. (numbers op xs >>= λ ds. ok (d ∷ ds))

  -- the value by which Python's `==` compares a number or a Boolean
  abbrev pub numeric : Json N → Option N.Decimal
  numeric (boolean true) = some (N.of_int (pos 1))
  numeric (boolean false) = some (N.of_int (pos 0))
  numeric (int z) = some (N.of_int z)
  numeric (float x) = some (N.exact x)
  numeric (decimal x) = some x
  numeric _ = none

  abbrev pub same_number : N.Decimal → Json N → Bool
  same_number x value = elim (numeric value) [ none ↦ false | some y ↦ N.same x y ]

  unfoldable mutual
    -- `left == right`, Python's own equality
    pub py_equal : Json N → Json N → Bool
    py_equal null right = elim right [ null ↦ true | _ ↦ false ]
    py_equal (boolean true) right = same_number (N.of_int (pos 1)) right
    py_equal (boolean false) right = same_number (N.of_int (pos 0)) right
    py_equal (int z) right = same_number (N.of_int z) right
    py_equal (float x) right = same_number (N.exact x) right
    py_equal (decimal x) right = same_number x right
    py_equal (text s) right = elim right [ text t ↦ str_eq s t | _ ↦ false ]
    py_equal (array xs) right = elim right [ array ys ↦ py_equal_items xs ys | _ ↦ false ]
    py_equal (object fs) right = elim right [
      | object gs ↦ (field_count fs == field_count gs) && py_equal_fields fs gs
      | _ ↦ false
    ]

    pub py_equal_items : Items N → Items N → Bool
    py_equal_items nil nil = true
    py_equal_items (cons x xs) (cons y ys) = py_equal x y && py_equal_items xs ys
    py_equal_items _ _ = false

    pub py_equal_fields : Fields N → Fields N → Bool
    py_equal_fields end gs = true
    py_equal_fields (field k v fs) gs =
        elim (get k gs) [ none ↦ false | some w ↦ py_equal v w ] && py_equal_fields fs gs

  -- `_to_decimal` of a value that is a number and no Boolean
  abbrev pub as_number : Json N → Option N.Decimal
  as_number (int z) = some (N.of_int z)
  as_number (float x) = some (N.of_float x)
  as_number (decimal x) = some x
  as_number _ = none

  -- `_equals`
  unfoldable pub values_equal : Json N → Json N → Bool
  unfolding py_equal
  values_equal left right = elim (as_number left) [
    | none ↦ py_equal left right
    | some x ↦ elim (as_number right) [ none ↦ py_equal left right | some y ↦ N.same x y ]
  ]

  abbrev pub any_equal : Json N → Items N → Bool
  any_equal needle nil = false
  any_equal needle (cons item items) = values_equal needle item || any_equal needle items

  abbrev pub text_in : Json N → String → Bool
  text_in (text part) whole = is_part_of part whole
  text_in _ whole = false

  -- `_membership`
  unfoldable pub membership : Json N → Json N → Result EvaluationError (Json N)
  unfolding values_equal is_part_of
  membership needle (text whole) = ok (boolean (text_in needle whole))
  membership needle (array items) = ok (boolean (any_equal needle items))
  membership needle _ = err expects_container

  abbrev pub compare_numbers :
      EagerOperator → (Ordering → Bool) → Items N → Result EvaluationError (Json N)
  compare_numbers op check args =
      numbers op args >>= λ xs. (pairwise N.order op check xs >>= λ b. ok (boolean b))

  abbrev pub calculate :
      EagerOperator
      → (List N.Decimal → Result EvaluationError N.Decimal)
      → Items N
      → Result EvaluationError (Json N)
  calculate op f args = numbers op args >>= λ xs. (f xs >>= λ x. ok (decimal x))

  -- an operator of exactly one or two arguments: Python raises `TypeError` otherwise
  abbrev pub unary :
      (Json N → Result EvaluationError (Json N)) → Items N → Result EvaluationError (Json N)
  unary f (cons x nil) = f x
  unary f _ = err crashed

  abbrev pub binary :
      (Json N → Json N → Result EvaluationError (Json N))
      → Items N
      → Result EvaluationError (Json N)
  binary f (cons x (cons y nil)) = f x y
  binary f _ = err crashed

  -- `implementation(*args)` for the entry of `_OPERATORS`
  unfoldable pub apply_operator : EagerOperator → Items N → Result EvaluationError (Json N)
  unfolding values_equal membership truthy numbers pairwise fold_decimals subtract extreme
  apply_operator equals = binary (λ x y. ok (boolean (values_equal x y)))
  apply_operator not_equals = binary (λ x y. ok (boolean (not (values_equal x y))))
  apply_operator greater = compare_numbers greater is_greater
  apply_operator greater_eq = compare_numbers greater_eq (λ o. not (is_less o))
  apply_operator less = compare_numbers less is_less
  apply_operator less_eq = compare_numbers less_eq (λ o. not (is_greater o))
  apply_operator negate = unary (λ x. ok (boolean (not (truthy x))))
  apply_operator member = binary membership
  apply_operator plus = calculate plus (fold_decimals N.add plus N.nought)
  apply_operator minus = calculate minus (subtract N.neg N.sub)
  apply_operator times = calculate times (fold_decimals N.mul times N.one)
  apply_operator minimum = calculate minimum (extreme N.order minimum is_less)
  apply_operator maximum = calculate maximum (extreme N.order maximum is_greater)
