-- ===== src/Rules/Syntax.antt =====
-- The operators, the variables and the types of conditions (app/rules.py).
use fraud_detection.Prelude.{
  ℕ, String, Bool, true, false, Option, none, some, List, [], ◌∷◌, ◌&&◌, leb,
}
use fraud_detection.Prelude.Text.{named}

-- The keys of `_OPERATORS`, in its order.
pub data EagerOperator : Type 0 where
  equals not_equals greater greater_eq less less_eq negate member plus minus times : EagerOperator
  minimum maximum : EagerOperator

-- The keys of `_OPERATORS` and of `_LAZY_OPERATORS`.
pub data Operator : Type 0 where
  eager : EagerOperator → Operator
  all_of any_of branch variable : Operator

unfoldable pub operator_table : List (String × Operator)
operator_table =
    ("==", eager equals)
    ∷ ("!=", eager not_equals)
    ∷ (">", eager greater)
    ∷ (">=", eager greater_eq)
    ∷ ("<", eager less)
    ∷ ("<=", eager less_eq)
    ∷ ("!", eager negate)
    ∷ ("in", eager member)
    ∷ ("+", eager plus)
    ∷ ("-", eager minus)
    ∷ ("*", eager times)
    ∷ ("min", eager minimum)
    ∷ ("max", eager maximum)
    ∷ ("and", all_of)
    ∷ ("or", any_of)
    ∷ ("if", branch)
    ∷ ("var", variable)
    ∷ []

unfoldable pub operator_named : String → Option Operator
unfolding operator_table named
operator_named name = named name operator_table

-- minimum and maximum number of arguments; `none` for unbounded
abbrev pub arity : Operator → ℕ × Option ℕ
arity (eager equals) = (2, some 2)
arity (eager not_equals) = (2, some 2)
arity (eager greater) = (2, some 2)
arity (eager greater_eq) = (2, some 2)
arity (eager less) = (2, some 3)
arity (eager less_eq) = (2, some 3)
arity (eager negate) = (1, some 1)
arity (eager member) = (2, some 2)
arity (eager plus) = (1, none)
arity (eager minus) = (1, some 2)
arity (eager times) = (1, none)
arity (eager minimum) = (1, none)
arity (eager maximum) = (1, none)
arity all_of = (1, none)
arity any_of = (1, none)
arity branch = (3, some 3)
arity variable = (1, some 2)

abbrev pub takes : Operator → ℕ → Bool
takes op count =
    leb (arity op).0 count && elim (arity op).1 [ none ↦ true | some most ↦ leb count most ]

-- `ValueType`, and the types that `_list_of` makes: "a list of anything" for an empty list.
pub data ValueType : Type 0 where
  number_type text_type boolean_type null_type empty_list : ValueType
  list_of : ValueType → ValueType

abbrev pub same_type : ValueType → ValueType → Bool
same_type number_type number_type = true
same_type text_type text_type = true
same_type boolean_type boolean_type = true
same_type null_type null_type = true
same_type empty_list empty_list = true
same_type (list_of t) (list_of u) = same_type t u
same_type _ _ = false

pub record Variable : Type 0 where
  pub type : ValueType
  pub required : Bool

abbrev variable_of_type : ValueType → Bool → Variable
variable_of_type t r = record { type = t; required = r }

unfoldable pub variable_table : List (String × Variable)
variable_table =
    ("amount", variable_of_type number_type true)
    ∷ ("currency", variable_of_type text_type true)
    ∷ ("category", variable_of_type text_type true)
    ∷ ("velocity.prior_count", variable_of_type number_type true)
    ∷ ("velocity.prior_amount", variable_of_type number_type true)
    ∷ ("channel", variable_of_type text_type false)
    ∷ ("country", variable_of_type text_type false)
    ∷ ("enrichment.distance_from_last_tx_km", variable_of_type number_type false)
    ∷ ("enrichment.minutes_since_last_tx", variable_of_type number_type false)
    ∷ ("enrichment.user_historical_avg_spend", variable_of_type number_type false)
    ∷ ("enrichment.is_new_merchant_for_user", variable_of_type boolean_type false)
    ∷ ("enrichment.is_travel_itinerary_active", variable_of_type boolean_type false)
    ∷ []

-- The reasons for which `validate_expression` raises `InvalidRuleSetError`.
pub data InvalidRule : Type 0 where
  too_many_nodes too_deep mixed_list not_finite not_one_operator unknown_operator : InvalidRule
  wrong_arity unknown_variable needs_default wrong_default wrong_operand : InvalidRule
  branch_condition branch_types never_equal never_member bad_haystack not_boolean : InvalidRule
