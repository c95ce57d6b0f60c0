-- ===== src/Rules/Typing.antt =====
-- The values of each type of a condition, and the outcomes that are allowed for it. The operators of
-- app/rules.py give such outcomes on arguments that `eager_type` accepts.
use fraud_detection.Prelude.{
  ◌≡◌, refl, String, Bool, true, Option, none, some, List, [], ◌∷◌, Ordering, arith, Bool-cases,
  inl, inr,
}
use fraud_detection.Prelude.Int.{ℤ}
use fraud_detection.Prelude.Result.{Result, ok, err, ◌>>=◌}
use fraud_detection.Rules.Numbers.{Numbers, NumberLaws}
use fraud_detection.Rules.Json.{
  Json, Items, null, boolean, int, float, decimal, text, array, nil, cons,
}
use fraud_detection.Rules.Syntax.{
  EagerOperator, minus, ValueType, number_type, text_type, boolean_type, null_type, empty_list,
  list_of, same_type,
}
use fraud_detection.Rules.Validate.{all_same, require}
use fraud_detection.Rules.Operators.{
  EvaluationError, expects_numbers, arithmetic, expects_container, missing_variable, crashed,
  raised, numbers, pairwise, fold_decimals, best_of, subtract, extreme,
}

-- The value is of the type, and every number in it is finite.
mutual
  pub data HasType {N : Numbers} : Json N → ValueType → Type 0 where
    of_null : HasType null null_type
    of_boolean : (b : Bool) → HasType (boolean b) boolean_type
    of_int : (z : ℤ) → HasType (int z) number_type
    of_float : (x : N.Float) → N.is_finite (N.of_float x) ≡ true → HasType (float x) number_type
    of_decimal : (x : N.Decimal) → N.is_finite x ≡ true → HasType (decimal x) number_type
    of_text : (s : String) → HasType (text s) text_type
    of_nil : HasType (array nil) empty_list
    of_items :
        {x : Json N} {xs : Items N} {t : ValueType}
        → HasType x t
        → ListOf xs t
        → HasType (array (cons x xs)) (list_of t)

  pub data ListOf {N : Numbers} : Items N → ValueType → Type 0 where
    none_left : {t : ValueType} → ListOf nil t
    one_more :
        {x : Json N} {xs : Items N} {t : ValueType}
        → HasType x t
        → ListOf xs t
        → ListOf (cons x xs) t

-- The arguments of an operation, each of its type.
pub data HaveTypes {N : Numbers} : Items N → List ValueType → Type 0 where
  no_args : HaveTypes nil []
  more_args :
      {x : Json N} {xs : Items N} {t : ValueType} {ts : List ValueType}
      → HasType x t
      → HaveTypes xs ts
      → HaveTypes (cons x xs) (t ∷ ts)

-- The outcome is allowed: a good value, or an arithmetic error. No other error is.
abbrev pub Allowed : {A : Type 0} → (A → Type 0) → Result EvaluationError A → Type 0
Allowed P (ok a) = P a
Allowed P (err (arithmetic op)) = Unit
Allowed P (err (expects_numbers op)) = ⊥
Allowed P (err expects_container) = ⊥
Allowed P (err missing_variable) = ⊥
Allowed P (err crashed) = ⊥

pub Allowed-bind :
    {A B : Type 0} (P : A → Type 0) (Q : B → Type 0) (r : Result EvaluationError A)
    (f : A → Result EvaluationError B)
    → Allowed P r
    → ((a : A) → P a → Allowed Q (f a))
    → Allowed Q (r >>= f)
Allowed-bind P Q (ok a) f h k = k a h
Allowed-bind P Q (err (arithmetic op)) f h k = tt
Allowed-bind P Q (err (expects_numbers op)) f h k = h
Allowed-bind P Q (err expects_container) f h k = h
Allowed-bind P Q (err missing_variable) f h k = h
Allowed-bind P Q (err crashed) f h k = h

pub same_type-eq : (t u : ValueType) → same_type t u ≡ true → t ≡ u
same_type-eq number_type number_type h = refl
same_type-eq text_type text_type h = refl
same_type-eq boolean_type boolean_type h = refl
same_type-eq null_type null_type h = refl
same_type-eq empty_list empty_list h = refl
same_type-eq (list_of t) (list_of u) h = cc (same_type-eq t u h)
same_type-eq _ _ h = cc

pub same_type_refl : (t : ValueType) → same_type t t ≡ true
same_type_refl number_type = refl
same_type_refl text_type = refl
same_type_refl boolean_type = refl
same_type_refl null_type = refl
same_type_refl empty_list = refl
same_type_refl (list_of t) = same_type_refl t

abbrev pub Any : {A : Type 0} → A → Type 0
Any a = Unit

pub require-eq-ok :
    {t u : ValueType} (expected : ValueType) (ts : List ValueType)
    → require expected ts t ≡ ok u
    → (all_same expected ts ≡ true) × (t ≡ u)
unfolding require
require-eq-ok expected ts h = ground arith

Allowed-raised :
    {A : Type 0} (P : A → Type 0) (op : EagerOperator) (o : Option A)
    → ((a : A) → o ≡ some a → P a)
    → Allowed P (raised op o)
Allowed-raised P op none h = tt
Allowed-raised P op (some a) h = h a refl

module _ {N : Numbers} (laws : NumberLaws N) where
  abbrev pub Finite : N.Decimal → Type 0
  Finite x = N.is_finite x ≡ true

  abbrev pub AllFinite : List N.Decimal → Type 0
  AllFinite [] = Unit
  AllFinite (x ∷ xs) = Finite x × AllFinite xs

  -- as many finite decimals as there are types
  abbrev pub Converted : List ValueType → List N.Decimal → Type 0
  Converted [] [] = Unit
  Converted (t ∷ ts) (x ∷ xs) = Finite x × Converted ts xs
  Converted _ _ = ⊥

  pub numbers-Allowed :
      (op : EagerOperator) {vs : Items N} {ts : List ValueType}
      → HaveTypes vs ts
      → all_same number_type ts ≡ true
      → Allowed (Converted ts) (numbers op vs)
  unfolding numbers
  numbers-Allowed op no_args h = tt
  numbers-Allowed op (more_args {xs = xs} {ts = ts} (of_int z) rest) h =
      Allowed-bind (Converted ts) (Converted (number_type ∷ ts)) (numbers {N = N} op xs)
        (λ ds. ok ((N.of_int z) ∷ ds)) (numbers-Allowed op rest h)
        (λ ds hds. (laws.of_int_finite z, hds))
  numbers-Allowed op (more_args {xs = xs} {ts = ts} (of_float x fin) rest) h =
      Allowed-bind (Converted ts) (Converted (number_type ∷ ts)) (numbers {N = N} op xs)
        (λ ds. ok ((N.of_float x) ∷ ds)) (numbers-Allowed op rest h) (λ ds hds. (fin, hds))
  numbers-Allowed op (more_args {xs = xs} {ts = ts} (of_decimal x fin) rest) h =
      Allowed-bind (Converted ts) (Converted (number_type ∷ ts)) (numbers {N = N} op xs)
        (λ ds. ok ((x) ∷ ds)) (numbers-Allowed op rest h) (λ ds hds. (fin, hds))
  numbers-Allowed op (more_args _ rest) h = cc

  pub Converted-AllFinite :
      (ts : List ValueType) (xs : List N.Decimal) → Converted ts xs → AllFinite xs
  Converted-AllFinite [] [] h = tt
  Converted-AllFinite (t ∷ ts) (x ∷ xs) h = (h.0, Converted-AllFinite ts xs h.1)
  Converted-AllFinite [] (x ∷ xs) h = absurd h
  Converted-AllFinite (t ∷ ts) [] h = absurd h

  pub pairwise-Allowed :
      (op : EagerOperator) (check : Ordering → Bool) (xs : List N.Decimal)
      → AllFinite xs
      → Allowed Any (pairwise N.order op check xs)
  unfolding pairwise
  pairwise-Allowed op check [] h = tt
  pairwise-Allowed op check (x ∷ []) h = tt
  pairwise-Allowed op check (x ∷ y ∷ rest) h =
      let (o, e) = laws.order_finite x y h.0 h.1.0 in
      rw e (elim (Bool-cases (check o)) [
        | inl passed ↦ rw passed (pairwise-Allowed op check (y ∷ rest) h.1)
        | inr failed ↦ rw failed tt
      ])

  pub fold_decimals-Allowed :
      (f : N.Decimal → N.Decimal → Option N.Decimal)
      → ((a b c : N.Decimal) → Finite a → Finite b → f a b ≡ some c → Finite c)
      → (op : EagerOperator) (acc : N.Decimal) (xs : List N.Decimal) → Finite acc
      → AllFinite xs
      → Allowed Finite (fold_decimals f op acc xs)
  unfolding fold_decimals
  fold_decimals-Allowed f closed op acc [] hacc h = hacc
  fold_decimals-Allowed f closed op acc (x ∷ xs) hacc h =
      Allowed-bind Finite Finite (raised op (f acc x)) _
        (Allowed-raised Finite op (f acc x) (λ c e. closed acc x c hacc h.0 e))
        (λ next hnext. fold_decimals-Allowed f closed op next xs hnext h.1)

  pub best_of-Allowed :
      (op : EagerOperator) (better : Ordering → Bool) (best : N.Decimal) (xs : List N.Decimal)
      → Finite best
      → AllFinite xs
      → Allowed Finite (best_of N.order op better best xs)
  unfolding best_of
  best_of-Allowed op better best [] hbest h = hbest
  best_of-Allowed op better best (x ∷ xs) hbest h =
      let (o, e) = laws.order_finite x best h.0 hbest in
      rw e (elim (Bool-cases (better o)) [
        | inl yes_better ↦ rw yes_better (best_of-Allowed op better x xs h.0 h.1)
        | inr not_better ↦ rw not_better (best_of-Allowed op better best xs hbest h.1)
      ])

  -- a calculation on at least one number
  pub extreme-Allowed :
      (op : EagerOperator) (better : Ordering → Bool) (t : ValueType) (ts : List ValueType)
      (xs : List N.Decimal)
      → Converted (t ∷ ts) xs
      → Allowed Finite (extreme N.order op better xs)
  unfolding extreme
  extreme-Allowed op better t ts [] h = h
  extreme-Allowed op better t ts (x ∷ xs) h =
      best_of-Allowed op better x xs h.0 (Converted-AllFinite ts xs h.1)

  pub subtract-Allowed :
      (t : ValueType) (ts : List ValueType) (xs : List N.Decimal)
      → Converted (t ∷ ts) xs
      → Allowed Finite (subtract N.neg N.sub xs)
  unfolding subtract
  subtract-Allowed t ts [] h = h
  subtract-Allowed t ts (x ∷ []) h =
      Allowed-raised Finite minus (N.neg x) (λ c e. laws.neg_finite x c h.0 e)
  subtract-Allowed t [] (x ∷ y ∷ rest) h = absurd h.1
  subtract-Allowed t (u ∷ ts) (x ∷ y ∷ rest) h =
      Allowed-raised Finite minus (N.sub x y) (λ c e. laws.sub_finite x y c h.0 h.1.0 e)
