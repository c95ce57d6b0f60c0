-- ===== src/Rules/Inversion.antt =====
-- What follows from a step of `visit` (app/rules.py) that returned.
use fraud_detection.Prelude.{
  ℕ, suc, ◌≡◌, ◌≢◌, refl, String, length, Bool, true, false, Option, none, some, List, [], ◌∷◌,
  arith, if◌then◌else◌,
}
use fraud_detection.Prelude.Result.{Result, ok, err, ◌>>=◌, >>=-eq-ok}
use fraud_detection.Prelude.Text.{named}
use fraud_detection.Rules.Numbers.{Numbers}
use fraud_detection.Rules.Json.{Json, Items, text, nil, cons}
use fraud_detection.Rules.Syntax.{
  Operator, variable, takes, ValueType, number_type, same_type, Variable, variable_table,
  unknown_variable, InvalidRule, needs_default, wrong_default,
}
use fraud_detection.Rules.Validate.{
  branch_type, operation_type, typed, variable_of, finite_literal, Visited,
}
use fraud_detection.Rules.Operators.{EvaluationError}
use fraud_detection.Rules.Typing.{Allowed, same_type-eq, Any}

-- inversion of the visit of a literal
pub literal-eq :
    {t u : ValueType} {m : ℕ} (entered : Result InvalidRule ℕ)
    → ◌≡◌ {A = Visited} (entered >>= λ n. ok (t, n)) (ok (u, m))
    → t ≡ u
literal-eq (ok n) e = cc
literal-eq (err x) e = cc

pub finite-eq :
    {u : ValueType} {m : ℕ} (finite : Bool) (entered : Result InvalidRule ℕ)
    → (entered >>= finite_literal finite) ≡ ok (u, m)
    → (number_type ≡ u) × (finite ≡ true)
unfolding finite_literal
finite-eq finite (ok n) e = ground arith
finite-eq finite (err x) e = cc

pub typed-eq-ok :
    (op : Operator) (visited : Result InvalidRule (List ValueType × ℕ)) (r : ValueType × ℕ)
    → typed op visited ≡ ok r
    → (ts : List ValueType) × (m : ℕ) × (visited ≡ ok (ts, m)) × (operation_type op ts ≡ ok r.0)
unfolding typed
typed-eq-ok op visited r e =
    let (q, e1, e2) = >>=-eq-ok visited _ e in
    let (t, e3, e4) = >>=-eq-ok (operation_type op q.0) _ e2 in (q.0, q.1, e1, cc)

abbrev pub Bare : Variable → ℕ → Visited
Bare v n = if v.required then ok (v.type, n) else err needs_default

pub required-eq-ok :
    (v : Variable) (n : ℕ) (r : ValueType × ℕ)
    → Bare v n ≡ ok r
    → (v.required ≡ true) × (v.type ≡ r.0)
required-eq-ok v n r e = ground arith

pub default-eq-ok :
    (v : Variable) (q r : ValueType × ℕ)
    → ◌≡◌ {A = Visited}
        (if same_type q.0 v.type then ok (v.type, q.1) else err wrong_default)
        (ok r)
    → (q.0 ≡ v.type) × (v.type ≡ r.0)
default-eq-ok v q r e =
    let same : same_type q.0 v.type ≡ true = ground arith in
    (same_type-eq q.0 v.type same, ground arith)

pub length_zero : (ts : List ValueType) → length ts ≡ 0 → ts ≡ []
length_zero [] e = refl
length_zero (t ∷ ts) e = absurd (omega arith)

pub branch_type-eq-ok :
    (c a b t : ValueType) (ts : List ValueType)
    → ts ≡ c ∷ a ∷ b ∷ []
    → branch_type ts ≡ ok t
    → (a ≡ b) × (a ≡ t)
unfolding branch_type
branch_type-eq-ok c a b t ts shape e =
    let e' : branch_type (c ∷ a ∷ b ∷ []) ≡ ok t = rw shape at e in
    let same : same_type a b ≡ true = ground arith in (same_type-eq a b same, ground arith)

pub if-Allowed :
    {A : Type 0} (b : Bool) (r s : Result EvaluationError A)
    → Allowed Any r
    → Allowed Any s
    → Allowed Any (if b then r else s)
if-Allowed true r s hr hs = hr
if-Allowed false r s hr hs = hs

pub length-branch : (ts : List ValueType) (t : ValueType) → branch_type ts ≡ ok t → length ts ≡ 3
unfolding branch_type
length-branch (c ∷ a ∷ b ∷ []) t e = refl
length-branch [] t e = cc
length-branch (c ∷ []) t e = cc
length-branch (c ∷ a ∷ []) t e = cc
length-branch (c ∷ a ∷ b ∷ d ∷ ts) t e = cc

pub not_branch :
    (ts : List ValueType) (t : ValueType) {k : ℕ}
    → length ts ≡ k
    → k ≢ 3
    → ¬ (branch_type ts ≡ ok t)
not_branch ts t len other e = omega (arith, length-branch ts t e)

-- the default of a variable, among its arguments
abbrev pub second : {N : Numbers} → Items N → Option (Json N)
second nil = none
second (cons x nil) = none
second (cons x (cons y rest)) = some y

pub found_option :
    (o : Option Variable) (v : Variable)
    → ◌≡◌ {A = Result InvalidRule Variable}
        (elim o [ none ↦ err unknown_variable | some w ↦ ok w ])
        (ok v)
    → o ≡ some v
found_option none v e = cc
found_option (some w) v e = cc

pub found_variable :
    (N : Numbers) (name : String) (v : Variable)
    → variable_of {N = N} (text name) ≡ ok v
    → named name variable_table ≡ some v
unfolding variable_of
found_variable N name v e = found_option (named name variable_table) v e

pub three_too_many : (k : ℕ) → ¬ (takes variable (suc (suc (suc k))) ≡ true)
three_too_many k e = ground arith
