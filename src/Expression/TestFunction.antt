-- ===== src/Expression/TestFunction.antt =====
-- The test function `get_delta_test_expression` (functions/expression_functions.cpp): the kernel's test
-- expression and test predicate, visited and printed.
use duckdb_delta.Prelude.{
  ◌<◌, ◌+◌, ◌^◌, ◌≡◌, refl, ◌++◌, Option, none, some, List, [], ◌∷◌, Str, codes, Result, ok, ◌>>=◌,
  throw, internal,
}
use duckdb_delta.Values.{
  ExpressionType, conjunction_and, Expr, Body, expr, function, conjunction, Exprs, no_exprs,
  then_expr,
}
use duckdb_delta.Expression.{start, make_field_list}
use duckdb_delta.Expression.Literals.{Library}
use duckdb_delta.Expression.Kernel.{
  KernelExprs, visit_exprs, finish, visit_kernel_expression, to_exprs, AreWellFormed, cost_all,
}
use duckdb_delta.Expression.Built.{visit_kernel_expression-to_exprs}

-- `VisitKernelExpression` of a shared expression, with the visitor of the other entry point.
unfoldable pub visit_kernel_shared_expression : Library → KernelExprs → Result (Option Exprs)
unfolding start make_field_list finish visit_exprs
visit_kernel_shared_expression lib expression =
    let (id, v) = make_field_list start in finish id (visit_exprs lib expression id v)

-- `VisitKernelPredicate`, whose visitor is that of `VisitKernelExpression`.
unfoldable pub visit_kernel_predicate : Library → KernelExprs → Result (Option Exprs)
unfolding start make_field_list finish visit_exprs
visit_kernel_predicate lib predicate =
    let (id, v) = make_field_list start in finish id (visit_exprs lib predicate id v)

abbrev and_children : ExpressionType → Exprs → Result Exprs
and_children conjunction_and es = ok es
and_children t es =
    throw internal (codes "Unexpected result: expected top level struct or conjunction")

-- The children of a function or of a conjunction by AND.
abbrev body_children : Body → Result Exprs
body_children (function name es o) = ok es
body_children (conjunction t es) = and_children t es
body_children b =
    throw internal (codes "Unexpected result: expected top level struct or conjunction")

-- The children of the only expression.
unfoldable pub top_children : Exprs → Result Exprs
top_children (then_expr (expr a b) no_exprs) = body_children b
top_children es = throw internal (codes "Unexpected result: expected single expression")

unfoldable pub to_strings : (Expr → Str) → Exprs → List Str
to_strings to_string no_exprs = []
to_strings to_string (then_expr e es) = to_string e ∷ to_strings to_string es

-- `AddTestExpressions`: the children's texts, behind the result so far.
unfoldable pub add_test_expressions : (Expr → Str) → List Str → Exprs → Result (List Str)
unfolding top_children to_strings
add_test_expressions to_string result es = do
  children ← top_children es
  ok (result ++ to_strings to_string children)

-- What is behind the pointer; `null_pointer` is what DuckDB's `unique_ptr` gives on a null pointer.
abbrev pointed : Result Exprs → Option Exprs → Result Exprs
pointed null_pointer none = null_pointer
pointed null_pointer (some es) = ok es

-- `GetDeltaTestExpression`, of the kernel's expression and predicate.
unfoldable pub get_delta_test_expression :
    Library → Result Exprs → KernelExprs → KernelExprs → Result (List Str)
unfolding visit_kernel_predicate visit_kernel_shared_expression add_test_expressions
get_delta_test_expression lib null_pointer expression predicate = do
  p ← visit_kernel_shared_expression lib expression
  es ← pointed null_pointer p
  result ← add_test_expressions lib.to_string [] es
  q ← visit_kernel_predicate lib predicate
  fs ← pointed null_pointer q
  add_test_expressions lib.to_string result fs

visit_kernel_predicate-same :
    (lib : Library) (predicate : KernelExprs)
    → visit_kernel_predicate lib predicate ≡ visit_kernel_expression lib predicate
unfolding visit_kernel_predicate visit_kernel_expression
visit_kernel_predicate-same lib predicate = refl

visit_kernel_shared_expression-same :
    (lib : Library) (expression : KernelExprs)
    → visit_kernel_shared_expression lib expression ≡ visit_kernel_expression lib expression
unfolding visit_kernel_shared_expression visit_kernel_expression
visit_kernel_shared_expression-same lib expression = refl

-- Where the kernel's expression and predicate are well-formed, of fewer than 2^64 - 2 lists, and each has
-- one function or conjunction by AND at its top, the test function returns the texts of the expression's
-- children, then those of the predicate's: no visit ends in an error or a null pointer.
pub get_delta_test_expression_lem :
    (lib : Library) (null_pointer : Result Exprs) (expression predicate : KernelExprs)
    (es fs : Exprs)
    → 2 + cost_all expression < 2 ^ 64
    → 2 + cost_all predicate < 2 ^ 64
    → AreWellFormed lib expression
    → AreWellFormed lib predicate
    → top_children (to_exprs lib expression) ≡ ok es
    → top_children (to_exprs lib predicate) ≡ ok fs
    → get_delta_test_expression lib null_pointer expression predicate
      ≡ ok (to_strings lib.to_string es ++ to_strings lib.to_string fs)
unfolding get_delta_test_expression add_test_expressions
get_delta_test_expression_lem lib null_pointer expression predicate es fs h k v w p q =
    rw
      (
        visit_kernel_shared_expression-same lib expression,
        visit_kernel_expression-to_exprs lib expression h v,
        p,
        visit_kernel_predicate-same lib predicate,
        visit_kernel_expression-to_exprs lib predicate k w,
        q,
      )
      refl
