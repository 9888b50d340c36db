-- ===== src/Expression/Tests.antt =====
-- An expression read through the callbacks, and the theorems there.
use duckdb_delta.Prelude.{
  ◌≡◌, ◌≢◌, refl, none, some, [], ◌∷◌, codes, ok, arith, pos, negsuc, ◌^◌, ◌-◌, false, true,
}
use duckdb_delta.Values.{
  decimal_value, string, compare_equal, Exprs, Body, no_exprs, then_expr, plain, constant,
  column_ref, function, comparison, snoc_expr,
}
use duckdb_delta.Inflight.{update, lookup}
use duckdb_delta.Expression.{Node, visit_binary_expression, forty_two}
use duckdb_delta.Expression.Literals.{
  Library, string_literal, literal_value, unquote, get_truncated_decimal_value, hugeint,
  decimal_argument,
}
use duckdb_delta.Expression.Kernel.{
  KernelExprs, literal, column, decimal, node, no_children, child, visit_kernel_expression,
  to_exprs, AreWellFormed, cost_all,
}
use duckdb_delta.Expression.States.{state}
use duckdb_delta.Expression.Built.{visit_kernel_expression-to_exprs, visit_binary_expression_arity}
use duckdb_delta.Expression.TestFunction.{
  get_delta_test_expression, top_children, to_strings, get_delta_test_expression_lem,
}
use duckdb_delta.Prelude.{inr}
use duckdb_delta.Expression.Decimals.{get_truncated_decimal_value_lem}

abbrev library : Library
library = record {
  make_decimal = λ z w s. ok (decimal_value z w s);
  to_string = λ e. codes "e";
  overflow = pos 0;
}

-- struct(c = 'x', 1.50)
abbrev expression : KernelExprs
expression =
    child
      (node Node.struct_expr (
        child
          (node Node.eq
            (child (column (codes "c")) (child (literal (string_literal (codes "x"))) no_children)))
          (child (decimal (pos 0) 150 3 2) no_children)))
      no_children

visit_kernel_expression-to_exprs_example :
    visit_kernel_expression library expression
    ≡ ok (
        some (
          then_expr
            (plain (
              function
                (codes "struct_pack")
                (then_expr
                  (plain (
                    comparison compare_equal
                      (plain (column_ref (codes "c")))
                      (plain (constant (string (codes "x"))))))
                  (then_expr (plain (constant (decimal_value (pos 150) 3 2))) no_exprs))
                false))
            no_exprs))
unfolding to_exprs AreWellFormed cost_all unquote literal_value decimal_argument
    get_truncated_decimal_value hugeint
visit_kernel_expression-to_exprs_example =
    visit_kernel_expression-to_exprs library expression (omega arith)
      ((refl, ((refl, (tt, (tt, tt))), ((refl, inr (refl, omega arith)), tt))), tt)

visit_binary_expression_arity_runs :
    let v =
      visit_binary_expression compare_equal 2 1
        (state ((2, no_exprs) ∷ (1, no_exprs) ∷ []) 3 none) in
    (v.error ≢ none)
    × (v.inflight ≡ record {
      inflight_lists = update 1 (snoc_expr forty_two) ((1, no_exprs) ∷ []);
      next_id = 3;
    })
unfolding lookup
visit_binary_expression_arity_runs =
    visit_binary_expression_arity compare_equal ((1, no_exprs) ∷ []) 3 2 1 none no_exprs no_exprs
      refl refl

get_truncated_decimal_value_lem_example :
    (get_truncated_decimal_value (pos 0) (pos 0) 149 ≡ hugeint (pos 0) 149)
    × ((get_truncated_decimal_value (pos 0) (negsuc 0) (2 ^ 64 - 150) ≡ pos 150)
        × (hugeint (negsuc 0) (2 ^ 64 - 150) ≡ negsuc 149))
    × (get_truncated_decimal_value (pos 0) (negsuc 0) (2 ^ 63) ≡ pos 0)
get_truncated_decimal_value_lem_example =
    get_truncated_decimal_value_lem (pos 0) 149 149 (omega arith) (omega arith)

-- c AND NOT c
abbrev predicate : KernelExprs
predicate =
    child
      (node Node.and_op (
        child (column (codes "c"))
          (child (node Node.not_op (child (column (codes "c")) no_children)) no_children)))
      no_children

abbrev two : Body → Body → Exprs
two a b = then_expr (plain a) (then_expr (plain b) no_exprs)

get_delta_test_expression_lem_runs :
    get_delta_test_expression library (ok no_exprs) expression predicate
    ≡ ok (codes "e" ∷ codes "e" ∷ codes "e" ∷ codes "e" ∷ [])
unfolding to_exprs AreWellFormed cost_all unquote literal_value decimal_argument top_children
    to_strings get_truncated_decimal_value hugeint
get_delta_test_expression_lem_runs =
    get_delta_test_expression_lem library (ok no_exprs) expression predicate
      (two
        (comparison compare_equal (plain (column_ref (codes "c")))
          (plain (constant (string (codes "x")))))
        (constant (decimal_value (pos 150) 3 2)))
      (two (column_ref (codes "c"))
        (function (codes "NOT") (then_expr (plain (column_ref (codes "c"))) no_exprs) true))
      (omega arith) (omega arith)
      ((refl, ((refl, (tt, (tt, tt))), ((refl, inr (refl, omega arith)), tt))), tt)
      ((refl, (tt, ((refl, (tt, tt)), tt))), tt) refl refl
