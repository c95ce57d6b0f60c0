-- ===== src/Rules/Validate.antt =====
-- `validate_expression` of app/rules.py: the static check of a condition before it is stored. The
-- texts of the errors, and the locations in them, are not modelled.
use fraud_detection.Prelude.{
  ℕ, suc, ◌+◌, Bool, true, Option, none, some, List, [], ◌∷◌, ltb, ◌&&◌, if◌then◌else◌,
}
use fraud_detection.Prelude.Result.{Result, ok, err, ◌>>=◌}
use fraud_detection.Prelude.Text.{named}
use fraud_detection.Rules.Numbers.{Numbers}
use fraud_detection.Rules.Json.{
  Json, Items, Fields, null, boolean, int, float, decimal, text, array, object, nil, cons, end,
  field, item_count,
}
use fraud_detection.Rules.Syntax.{
  EagerOperator, equals, not_equals, greater, greater_eq, less, less_eq, negate, member, plus,
  minus, times, minimum, maximum, Operator, eager, all_of, any_of, branch, variable, operator_named,
  takes, ValueType, number_type, text_type, boolean_type, null_type, empty_list, list_of, same_type,
  Variable, variable_table, InvalidRule, too_many_nodes, too_deep, mixed_list, not_finite,
  not_one_operator, unknown_operator, wrong_arity, unknown_variable, needs_default, wrong_default,
  wrong_operand, branch_condition, branch_types, never_equal, never_member, bad_haystack,
  not_boolean,
}

abbrev pub max_expression_depth : ℕ
max_expression_depth = 24

abbrev pub max_expression_nodes : ℕ
max_expression_nodes = 400

-- Counts a node, and checks both limits; the result is the new count.
unfoldable pub enter : ℕ → ℕ → Result InvalidRule ℕ
enter depth count =
    if ltb max_expression_nodes (count + 1)
    then err too_many_nodes
    else if ltb max_expression_depth depth
    then err too_deep
    else ok (count + 1)

abbrev pub all_same : ValueType → List ValueType → Bool
all_same t [] = true
all_same t (u ∷ us) = same_type t u && all_same t us

-- the type of a list literal: `len(element_types) > 1` is an error
unfoldable pub list_type : List ValueType → Result InvalidRule ValueType
list_type [] = ok empty_list
list_type (t ∷ ts) = if all_same t ts then ok (list_of t) else err mixed_list

unfoldable pub require : ValueType → List ValueType → ValueType → Result InvalidRule ValueType
require expected ts result = if all_same expected ts then ok result else err wrong_operand

unfoldable pub comparable : ValueType → ValueType → Bool
comparable left null_type = true
comparable null_type right = true
comparable left right = same_type left right

unfoldable pub member_type : ValueType → ValueType → Result InvalidRule ValueType
member_type needle text_type =
    if same_type needle text_type then ok boolean_type else err never_member
member_type needle empty_list = ok boolean_type
member_type needle (list_of t) = if same_type t needle then ok boolean_type else err never_member
member_type needle _ = err bad_haystack

unfoldable pub pair_type :
    (ValueType → ValueType → Result InvalidRule ValueType)
    → List ValueType
    → Result InvalidRule ValueType
pair_type f (left ∷ right ∷ []) = f left right
pair_type f _ = err wrong_arity

abbrev pub equality_type : ValueType → ValueType → Result InvalidRule ValueType
equality_type left right = if comparable left right then ok boolean_type else err never_equal

unfoldable pub branch_type : List ValueType → Result InvalidRule ValueType
branch_type (condition ∷ when_true ∷ when_false ∷ []) =
    if same_type condition boolean_type
    then (if same_type when_true when_false then ok when_true else err branch_types)
    else err branch_condition
branch_type _ = err wrong_arity

unfoldable pub eager_type : EagerOperator → List ValueType → Result InvalidRule ValueType
unfolding require pair_type comparable member_type
eager_type equals ts = pair_type equality_type ts
eager_type not_equals ts = pair_type equality_type ts
eager_type greater ts = require number_type ts boolean_type
eager_type greater_eq ts = require number_type ts boolean_type
eager_type less ts = require number_type ts boolean_type
eager_type less_eq ts = require number_type ts boolean_type
eager_type negate ts = require boolean_type ts boolean_type
eager_type member ts = pair_type member_type ts
eager_type plus ts = require number_type ts number_type
eager_type minus ts = require number_type ts number_type
eager_type times ts = require number_type ts number_type
eager_type minimum ts = require number_type ts number_type
eager_type maximum ts = require number_type ts number_type

-- the type of an operation from the types of its arguments; `variable` has `check_variable`
unfoldable pub operation_type : Operator → List ValueType → Result InvalidRule ValueType
unfolding eager_type branch_type require
operation_type (eager op) ts = eager_type op ts
operation_type all_of ts = require boolean_type ts boolean_type
operation_type any_of ts = require boolean_type ts boolean_type
operation_type branch ts = branch_type ts
operation_type variable ts = err wrong_arity

abbrev pub Visited : Type 0
Visited = Result InvalidRule (ValueType × ℕ)

-- What follows the visit of the arguments.
unfoldable pub typed : Operator → Result InvalidRule (List ValueType × ℕ) → Visited
unfolding operation_type
typed op visited = visited >>= λ r. (operation_type op r.0 >>= λ t. ok (t, r.1))

-- The checks of an operation: its name, its number of arguments, and the visit that follows.
unfoldable pub check_operation :
    Option Operator → ℕ → Visited → Result InvalidRule (List ValueType × ℕ) → Visited
unfolding typed
check_operation none count as_variable as_arguments = err unknown_operator
check_operation (some variable) count as_variable as_arguments =
    if takes variable count then as_variable else err wrong_arity
check_operation (some op) count as_variable as_arguments =
    if takes op count then typed op as_arguments else err wrong_arity

-- a number literal must be finite
unfoldable pub finite_literal : Bool → ℕ → Visited
finite_literal finite count = if finite then ok (number_type, count) else err not_finite

module _ {N : Numbers} where
  unfoldable pub variable_of : Json N → Result InvalidRule Variable
  unfolding variable_table named
  variable_of (text name) = elim (named name variable_table) [
    | none ↦ err unknown_variable
    | some v ↦ ok v
  ]
  variable_of _ = err unknown_variable

  -- `check_variable` with one argument
  unfoldable pub check_bare : Json N → ℕ → Visited
  unfolding variable_of
  check_bare name count =
      variable_of name >>= λ v. if v.required then ok (v.type, count) else err needs_default

  -- `check_variable` with a default, which has been visited
  unfoldable pub check_default : Json N → Visited → Visited
  unfolding variable_of
  check_default name visited = variable_of name >>= λ v.
      (visited >>= λ r. if same_type r.0 v.type then ok (v.type, r.1) else err wrong_default)

  unfoldable mutual
    unfolding enter list_type check_operation check_bare check_default finite_literal operator_named

    -- `visit(node, location, depth)`: the type of the node, and the new `node_count`
    pub visit : Json N → ℕ → ℕ → Visited
    visit null depth count = enter depth count >>= λ n. ok (null_type, n)
    visit (boolean b) depth count = enter depth count >>= λ n. ok (boolean_type, n)
    visit (int z) depth count = enter depth count >>= λ n. ok (number_type, n)
    visit (float x) depth count =
        enter depth count >>= λ n. finite_literal (N.is_finite (N.of_float x)) n
    visit (decimal x) depth count = enter depth count >>= λ n. finite_literal (N.is_finite x) n
    visit (text s) depth count = enter depth count >>= λ n. ok (text_type, n)
    visit (array items) depth count = enter depth count >>= λ n.
        (visit_items items (suc depth) n >>= λ r. (list_type r.0 >>= λ t. ok (t, r.1)))
    visit (object fields) depth count = enter depth count >>= λ n. visit_fields fields depth n

    pub visit_items : Items N → ℕ → ℕ → Result InvalidRule (List ValueType × ℕ)
    visit_items nil depth count = ok ([], count)
    visit_items (cons node items) depth count = visit node depth count >>= λ r.
        (visit_items items depth r.1 >>= λ rs. ok (r.0 ∷ rs.0, rs.1))

    -- the node of one operator key, after it has been counted
    pub visit_fields : Fields N → ℕ → ℕ → Visited
    visit_fields (field name (array args) end) depth count =
        check_operation (operator_named name) (item_count args) (visit_variable args depth count)
          (visit_items args (suc depth) count)
    visit_fields (field name arg end) depth count =
        check_operation (operator_named name) 1 (check_bare arg count)
          (visit arg (suc depth) count >>= λ r. ok (r.0 ∷ [], r.1))
    visit_fields _ depth count = err not_one_operator

    -- `check_variable(args, location, depth)`
    pub visit_variable : Items N → ℕ → ℕ → Visited
    visit_variable nil depth count = err wrong_arity
    visit_variable (cons name nil) depth count = check_bare name count
    visit_variable (cons name (cons default rest)) depth count =
        check_default name (visit default (suc depth) count)

  -- `validate_expression`
  unfoldable pub validate_expression : Json N → Result InvalidRule (Unit {0})
  unfolding visit
  validate_expression expression =
      visit expression 1 0 >>= λ r. if same_type r.0 boolean_type then ok tt else err not_boolean
