-- ===== src/Rules/Operations.antt =====
-- Every operator of `_OPERATORS` in app/rules.py gives an allowed outcome on arguments of the types
-- that `validate_expression` wants of it.
use fraud_detection.Prelude.{
  ◌≡◌, length, Bool, true, Option, some, List, [], ◌∷◌, Ordering, arith, not, leb,
}
use fraud_detection.Prelude.Result.{Result, ok, ◌>>=◌}
use fraud_detection.Rules.Numbers.{Numbers, NumberLaws}
use fraud_detection.Rules.Json.{Json, Items, boolean, decimal}
use fraud_detection.Rules.Syntax.{
  EagerOperator, equals, not_equals, greater, greater_eq, less, less_eq, negate, member, plus,
  minus, times, minimum, maximum, ValueType, number_type, text_type, boolean_type, empty_list,
  list_of, takes, eager, InvalidRule,
}
use fraud_detection.Rules.Validate.{require, eager_type, pair_type, equality_type, member_type}
use fraud_detection.Rules.Operators.{
  EvaluationError, numbers, pairwise, fold_decimals, membership, apply_operator, compare_numbers,
  calculate, truthy, unary, binary,
}
use fraud_detection.Rules.Typing.{
  HasType, of_boolean, of_decimal, of_text, of_nil, of_items, HaveTypes, no_args, more_args,
  Allowed, Allowed-bind, require-eq-ok, Converted, Finite, Any, numbers-Allowed, pairwise-Allowed,
  fold_decimals-Allowed, extreme-Allowed, subtract-Allowed, Converted-AllFinite,
}

module _ {N : Numbers} (laws : NumberLaws N) where
  abbrev pub IsOf : ValueType → Json N → Type 0
  IsOf t v = HasType v t

  compare_numbers-Allowed :
      (op : EagerOperator) (check : Ordering → Bool) {vs : Items N} {ts : List ValueType}
      {t : ValueType}
      → HaveTypes vs ts
      → require number_type ts boolean_type ≡ ok t
      → Allowed (IsOf t) (compare_numbers op check vs)
  compare_numbers-Allowed op check {vs} {ts} {t} h e =
      let r = require-eq-ok {u = t} number_type ts e in
      rw (← r.1) (
        Allowed-bind (Converted laws ts) (IsOf boolean_type) (numbers op vs)
          (λ xs. pairwise N.order op check xs >>= λ b. ok (boolean b))
          (numbers-Allowed laws op h r.0)
          (λ xs hxs.
            Allowed-bind (Any {A = Bool}) (IsOf boolean_type) (pairwise N.order op check xs)
              (λ b. ok (boolean b))
              (pairwise-Allowed laws op check xs (Converted-AllFinite laws ts xs hxs))
              (λ b _. of_boolean b)))

  calculate-Allowed :
      (op : EagerOperator) (f : List N.Decimal → Result EvaluationError N.Decimal) {vs : Items N}
      {ts : List ValueType} {t : ValueType}
      → HaveTypes vs ts
      → ((xs : List N.Decimal) → Converted laws ts xs → Allowed (Finite laws) (f xs))
      → require number_type ts number_type ≡ ok t
      → Allowed (IsOf t) (calculate op f vs)
  calculate-Allowed op f {vs} {ts} {t} h hf e =
      let r = require-eq-ok {u = t} number_type ts e in
      rw (← r.1) (
        Allowed-bind (Converted laws ts) (IsOf number_type) (numbers op vs)
          (λ xs. f xs >>= λ x. ok (decimal x)) (numbers-Allowed laws op h r.0)
          (λ xs hxs.
            Allowed-bind (Finite laws) (IsOf number_type) (f xs) (λ x. ok (decimal x)) (hf xs hxs)
              (λ x hx. of_decimal x hx)))

  member_type-eq : (t u r : ValueType) → member_type t u ≡ ok r → boolean_type ≡ r
  unfolding member_type
  member_type-eq t number_type r e = cc
  member_type-eq t _ r e = ground arith

  membership-Allowed :
      {v w : Json N} {t u r : ValueType}
      → HasType v t
      → HasType w u
      → member_type t u ≡ ok r
      → Allowed (IsOf r) (membership v w)
  unfolding member_type membership
  membership-Allowed {t = t} {r = r} hv (of_text s) e =
      rw (← member_type-eq t text_type r e) (of_boolean _)
  membership-Allowed {t = t} {r = r} hv of_nil e =
      rw (← member_type-eq t empty_list r e) (of_boolean _)
  membership-Allowed {t = t} {r = r} hv (of_items {t = u} x xs) e =
      rw (← member_type-eq t (list_of u) r e) (of_boolean _)
  membership-Allowed hv _ e = cc

  equality-Allowed :
      (b : Bool) (t u r : ValueType) → equality_type t u ≡ ok r → Allowed (IsOf r) (ok (boolean b))
  equality-Allowed b t u r e =
      let same : boolean_type ≡ r = ground arith in rw (← same) (of_boolean b)

  binary-Allowed :
      (f : ValueType → ValueType → Result InvalidRule ValueType)
      (g : Json N → Json N → Result EvaluationError (Json N)) {vs : Items N} {ts : List ValueType}
      {r : ValueType}
      → HaveTypes vs ts
      → ((v w : Json N) (t u : ValueType)
          → HasType v t
          → HasType w u
          → f t u ≡ ok r
          → Allowed (IsOf r) (g v w))
      → pair_type f ts ≡ ok r
      → Allowed (IsOf r) (binary g vs)
  unfolding pair_type
  binary-Allowed f g no_args k e = cc
  binary-Allowed f g (more_args h no_args) k e = cc
  binary-Allowed f g (more_args {x = v} {t = t} h (more_args {x = w} {t = u} h' no_args)) k e =
      k v w t u h h' e
  binary-Allowed f g (more_args h (more_args h' (more_args h'' rest))) k e = cc

  negate-Allowed :
      {vs : Items N} {ts : List ValueType} {r : ValueType}
      → HaveTypes vs ts
      → takes (eager negate) (length ts) ≡ true
      → require boolean_type ts boolean_type ≡ ok r
      → Allowed (IsOf r) (unary (λ x. ok (boolean (not (truthy x)))) vs)
  negate-Allowed no_args n e = cc
  negate-Allowed {r = r} (more_args {t = t} h no_args) n e =
      rw (← (require-eq-ok {u = r} boolean_type (t ∷ []) e).1) (of_boolean _)
  negate-Allowed (more_args h (more_args h' rest)) n e = ground arith

  -- a calculation that wants a first number
  from_first-Allowed :
      (op : EagerOperator) (f : List N.Decimal → Result EvaluationError N.Decimal) {vs : Items N}
      {ts : List ValueType} {t : ValueType}
      → HaveTypes vs ts
      → ((u : ValueType) (us : List ValueType) (xs : List N.Decimal)
          → Converted laws (u ∷ us) xs
          → Allowed (Finite laws) (f xs))
      → leb 1 (length ts) ≡ true
      → require number_type ts number_type ≡ ok t
      → Allowed (IsOf t) (calculate op f vs)
  from_first-Allowed op f no_args hf n e = cc
  from_first-Allowed op f (more_args {t = u} {ts = us} h rest) hf n e =
      calculate-Allowed op f (more_args h rest) (hf u us) e

  -- the fold of `+` and `*`
  fold-Allowed :
      (f : N.Decimal → N.Decimal → Option N.Decimal)
      → ((a b c : N.Decimal) → Finite laws a → Finite laws b → f a b ≡ some c → Finite laws c)
      → (op : EagerOperator) (start : N.Decimal) {vs : Items N} {ts : List ValueType}
        {t : ValueType}
      → Finite laws start
      → HaveTypes vs ts
      → require number_type ts number_type ≡ ok t
      → Allowed (IsOf t) (calculate op (fold_decimals f op start) vs)
  fold-Allowed f closed op start {ts = ts} hs h e =
      calculate-Allowed op (fold_decimals f op start) h
        (λ xs hxs.
          fold_decimals-Allowed laws f closed op start xs hs (Converted-AllFinite laws ts xs hxs))
        e

  pub apply_operator-Allowed :
      (op : EagerOperator) {vs : Items N} {ts : List ValueType} {t : ValueType}
      → HaveTypes vs ts
      → takes (eager op) (length ts) ≡ true
      → eager_type op ts ≡ ok t
      → Allowed (IsOf t) (apply_operator op vs)
  unfolding eager_type apply_operator
  apply_operator-Allowed equals {t = r} h n e =
      binary-Allowed equality_type _ h (λ v w t u hv hw k. equality-Allowed _ t u r k) e
  apply_operator-Allowed not_equals {t = r} h n e =
      binary-Allowed equality_type _ h (λ v w t u hv hw k. equality-Allowed _ t u r k) e
  apply_operator-Allowed greater h n e = compare_numbers-Allowed greater _ h e
  apply_operator-Allowed greater_eq h n e = compare_numbers-Allowed greater_eq _ h e
  apply_operator-Allowed less h n e = compare_numbers-Allowed less _ h e
  apply_operator-Allowed less_eq h n e = compare_numbers-Allowed less_eq _ h e
  apply_operator-Allowed negate h n e = negate-Allowed h n e
  apply_operator-Allowed member h n e =
      binary-Allowed member_type membership h (λ v w t u hv hw k. membership-Allowed hv hw k) e
  apply_operator-Allowed plus h n e =
      fold-Allowed N.add laws.add_finite plus N.nought laws.nought_finite h e
  apply_operator-Allowed minus h n e =
      from_first-Allowed minus _ h (subtract-Allowed laws) (ground arith) e
  apply_operator-Allowed times h n e =
      fold-Allowed N.mul laws.mul_finite times N.one laws.one_finite h e
  apply_operator-Allowed minimum h n e =
      from_first-Allowed minimum _ h (extreme-Allowed laws minimum _) (ground arith) e
  apply_operator-Allowed maximum h n e =
      from_first-Allowed maximum _ h (extreme-Allowed laws maximum _) (ground arith) e
