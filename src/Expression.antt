-- ===== src/Expression.antt =====
-- `ExpressionVisitor` (delta_utils.hpp, delta_utils.cpp): the callbacks by which the Delta kernel
-- hands over an expression. This file has the lists and the elements with one child list.
pub mod Literals
pub mod Kernel
pub mod States
pub mod Built
pub mod Decimals
pub mod TestFunction
mod Tests
use duckdb_delta.Prelude.{
  ℕ, ◌++◌, ◌==◌, Option, none, some, Bool, true, false, Str, codes, ErrorData, other, to_decimal,
  if◌then◌else◌, pos,
}
use duckdb_delta.Values.{
  Value, null, integer_value, ExpressionType, conjunction_and, conjunction_or, compare_lessthan,
  compare_greaterthan, compare_equal, compare_distinct_from, compare_in, Expr, Body, constant,
  column_ref, function, conjunction, comparison, operator, Exprs, no_exprs, then_expr, snoc_expr,
  count_exprs, plain,
}
use duckdb_delta.Inflight
use duckdb_delta.Inflight.{Inflight}

pub record ExpressionVisitor : Type 0 where
  pub inflight : Inflight Exprs
  pub error : Option ErrorData

-- `ErrorData(message)`.
abbrev pub error_data : Str → Option ErrorData
error_data message = some (record { exception_type = other; message = message })

unfoldable pub make_field_list : ExpressionVisitor → ℕ × ExpressionVisitor
unfolding Inflight.make_field_list
make_field_list v =
    let (id, s) = Inflight.make_field_list no_exprs v.inflight in (id, record v { inflight = s })

unfoldable pub append_to_list : ℕ → Expr → ExpressionVisitor → ExpressionVisitor
unfolding Inflight.append_to_list
append_to_list id child v = elim (Inflight.append_to_list id (snoc_expr child) v.inflight) [
  | none ↦ record v {
    error = error_data (codes "ExpressionVisitor::AppendToList could not find " ++ to_decimal id);
  }
  | some s ↦ record v { inflight = s }
]

-- A list that is not there is reported, and there are no children then.
unfoldable pub take_field_list : ℕ → ExpressionVisitor → Option Exprs × ExpressionVisitor
unfolding Inflight.take_field_list
take_field_list id v = elim (Inflight.take_field_list id v.inflight) [
  | none ↦ (
    none,
    record v {
      error =
          error_data (codes "ExpressionVisitor::TakeFieldList could not find " ++ to_decimal id);
    },
  )
  | some (es, s) ↦ (some es, record v { inflight = s })
]

-- The functions that the visitor makes from a child list: `make_uniq<FunctionExpression>`.
unfoldable pub visit_function : Str → Bool → ℕ → ℕ → ExpressionVisitor → ExpressionVisitor
unfolding append_to_list take_field_list
visit_function name is_operator child_list_id sibling_list_id v =
    let (children, v') = take_field_list child_list_id v in
    elim children [
      | none ↦ v'
      | some es ↦ append_to_list sibling_list_id (plain (function name es is_operator)) v'
    ]

unfoldable pub visit_addition_expression : ℕ → ℕ → ExpressionVisitor → ExpressionVisitor
unfolding visit_function
visit_addition_expression = visit_function (codes "+") true

unfoldable pub visit_subctraction_expression : ℕ → ℕ → ExpressionVisitor → ExpressionVisitor
unfolding visit_function
visit_subctraction_expression = visit_function (codes "-") true

unfoldable pub visit_divide_expression : ℕ → ℕ → ExpressionVisitor → ExpressionVisitor
unfolding visit_function
visit_divide_expression = visit_function (codes "/") true

unfoldable pub visit_multiply_expression : ℕ → ℕ → ExpressionVisitor → ExpressionVisitor
unfolding visit_function
visit_multiply_expression = visit_function (codes "*") true

unfoldable pub visit_array_literal : ℕ → ℕ → ExpressionVisitor → ExpressionVisitor
unfolding visit_function
visit_array_literal = visit_function (codes "list_value") false

unfoldable pub visit_struct_expression : ℕ → ℕ → ExpressionVisitor → ExpressionVisitor
unfolding visit_function
visit_struct_expression = visit_function (codes "struct_pack") false

unfoldable pub visit_not_expression : ℕ → ℕ → ExpressionVisitor → ExpressionVisitor
unfolding visit_function
visit_not_expression = visit_function (codes "NOT") true

unfoldable pub visit_is_null_expression : ℕ → ℕ → ExpressionVisitor → ExpressionVisitor
unfolding append_to_list take_field_list
visit_is_null_expression child_list_id sibling_list_id v =
    let (children, v') = take_field_list child_list_id v in
    elim children [
      | none ↦ v'
      | some es ↦
          append_to_list sibling_list_id
            (plain (function (codes "IS") (snoc_expr (plain (constant null)) es) true)) v'
    ]

-- `make_uniq<ConstantExpression>(Value(42))`, which stands for an element that could not be built.
abbrev pub forty_two : Expr
forty_two = plain (constant (integer_value (pos 42)))

-- `VisitVariadicExpression<EXPRESSION_TYPE, EXPRESSION_TYPENAME>`; `build` makes the expression.
unfoldable pub visit_variadic_expression :
    (Exprs → Body) → ℕ → ℕ → ExpressionVisitor → ExpressionVisitor
unfolding append_to_list take_field_list
visit_variadic_expression build child_list_id sibling_list_id v =
    let (children, v') = take_field_list child_list_id v in
    elim children [
      | none ↦ append_to_list sibling_list_id forty_two v'
      | some es ↦ append_to_list sibling_list_id (plain (build es)) v'
    ]

-- `EnumUtil::ToString(EXPRESSION_TYPE)` for the comparisons.
abbrev expression_type_name : ExpressionType → Str
expression_type_name compare_lessthan = codes "COMPARE_LESSTHAN"
expression_type_name compare_greaterthan = codes "COMPARE_GREATERTHAN"
expression_type_name compare_equal = codes "COMPARE_EQUAL"
expression_type_name compare_distinct_from = codes "COMPARE_DISTINCT_FROM"
expression_type_name compare_in = codes "COMPARE_IN"
expression_type_name conjunction_and = codes "CONJUNCTION_AND"
expression_type_name conjunction_or = codes "CONJUNCTION_OR"

-- The two operands, if there are exactly two.
abbrev pub operands : Exprs → Option (Expr × Expr)
operands no_exprs = none
operands (then_expr a no_exprs) = none
operands (then_expr a (then_expr b no_exprs)) = some (a, b)
operands (then_expr a (then_expr b (then_expr c es))) = none

-- `VisitBinaryExpression<EXPRESSION_TYPE, ComparisonExpression>`. The error is written after the
-- placeholder is appended.
unfoldable pub visit_binary_expression :
    ExpressionType → ℕ → ℕ → ExpressionVisitor → ExpressionVisitor
unfolding append_to_list take_field_list
visit_binary_expression t child_list_id sibling_list_id v =
    let (children, v') = take_field_list child_list_id v in
    elim children [
      | none ↦ append_to_list sibling_list_id forty_two v'
      | some es ↦ elim (operands es) [
        | none ↦ record (append_to_list sibling_list_id forty_two v') {
          error =
              error_data
                (codes "INCORRECT SIZE IN VISIT_BINARY_EXPRESSION" ++ expression_type_name t);
        }
        | some (lhs, rhs) ↦ append_to_list sibling_list_id (plain (comparison t lhs rhs)) v'
      ]
    ]

-- The callbacks with one child list.
pub data Node : Type 0 where
  add minus multiply divide array struct_expr not_op is_null : Node
  and_op or_op in_op : Node
  lt gt eq distinct : Node

-- The table of `CreateVisitor` for those callbacks.
unfoldable pub visit_node : Node → ℕ → ℕ → ExpressionVisitor → ExpressionVisitor
unfolding visit_addition_expression visit_subctraction_expression visit_multiply_expression
    visit_divide_expression visit_array_literal visit_struct_expression visit_not_expression
    visit_is_null_expression visit_variadic_expression visit_binary_expression
visit_node add = visit_addition_expression
visit_node minus = visit_subctraction_expression
visit_node multiply = visit_multiply_expression
visit_node divide = visit_divide_expression
visit_node array = visit_array_literal
visit_node struct_expr = visit_struct_expression
visit_node not_op = visit_not_expression
visit_node is_null = visit_is_null_expression
visit_node and_op = visit_variadic_expression (conjunction conjunction_and)
visit_node or_op = visit_variadic_expression (conjunction conjunction_or)
visit_node in_op = visit_variadic_expression (operator compare_in)
visit_node lt = visit_binary_expression compare_lessthan
visit_node gt = visit_binary_expression compare_greaterthan
visit_node eq = visit_binary_expression compare_equal
visit_node distinct = visit_binary_expression compare_distinct_from

unfoldable pub start : ExpressionVisitor
unfolding Inflight.start
start = record { inflight = Inflight.start; error = none }
