-- ===== src/Expression/Kernel.antt =====
-- The order in which the kernel visits an expression, as the comment on `EngineExpressionVisitor` in
-- delta_kernel_ffi.hpp documents it: the lists of children are allocated and filled before the
-- element itself is visited.
use duckdb_delta.Prelude.{ℕ, ◌+◌, ◌≡◌, ◌==◌, true, Option, none, some, Str, Result, ok, err, ℤ}
use duckdb_delta.Types.{LogicalType, invalid}
use duckdb_delta.Values.{
  Value, Values, map_value, ExpressionType, conjunction_and, conjunction_or, compare_lessthan,
  compare_greaterthan, compare_equal, compare_distinct_from, compare_in, Expr, Body, constant, null,
  column_ref, function, conjunction, comparison, operator, Exprs, no_exprs, then_expr, snoc_expr,
  count_exprs, plain,
}
use duckdb_delta.Prelude.{codes, Bool, false, ltb, ◌<◌, ◌^◌, ◌⊎◌, pos}
use duckdb_delta.Expression.{
  ExpressionVisitor, make_field_list, take_field_list, visit_node, start, operands, Node, add,
  minus, multiply, divide, array, struct_expr, not_op, is_null, and_op, or_op, in_op, lt, gt, eq,
  distinct,
}
use duckdb_delta.Expression.Literals.{
  Library, Literal, hugeint, max_width_int64, literal_value, visit_literal, unquote,
  visit_column_expression, visit_decimal_literal, visit_struct_literal, visit_literal_map,
  set_aliases, constants,
}

mutual
  pub data KernelExpr : Type 0 where
    literal : Literal → KernelExpr
    column : Str → KernelExpr
    decimal : ℤ → ℕ → ℕ → ℕ → KernelExpr
    node : Node → KernelExprs → KernelExpr
    struct_literal : KernelExprs → KernelExprs → KernelExpr
    map_literal : KernelExprs → KernelExprs → KernelExpr

  pub data KernelExprs : Type 0 where
    no_children : KernelExprs
    child : KernelExpr → KernelExprs → KernelExprs

-- The end of `VisitKernelExpression`: the recorded error is thrown, or the list is returned, a null
-- pointer (`none`) if it is not there.
unfoldable pub finish : ℕ → ExpressionVisitor → Result (Option Exprs)
unfolding take_field_list
finish result v = elim v.error [ some e ↦ err e | none ↦ ok (take_field_list result v).0 ]

module _ (lib : Library) where
  unfoldable mutual
    pub visit_expr : KernelExpr → ℕ → ExpressionVisitor → ExpressionVisitor
    visit_expr (literal x) sibling v = visit_literal x sibling v
    visit_expr (column name) sibling v = visit_column_expression name sibling v
    visit_expr (decimal ms ls p s) sibling v = visit_decimal_literal lib ms ls p s sibling v
    visit_expr (node n es) sibling v =
        let (id, v') = make_field_list v in visit_node n id sibling (visit_exprs es id v')
    visit_expr (struct_literal ks es) sibling v =
        let (keys, v1) = make_field_list v in
        let (values, v2) = make_field_list (visit_exprs ks keys v1) in
        visit_struct_literal lib keys values sibling (visit_exprs es values v2)
    visit_expr (map_literal ks es) sibling v =
        let (keys, v1) = make_field_list v in
        let (values, v2) = make_field_list (visit_exprs ks keys v1) in
        visit_literal_map keys values sibling (visit_exprs es values v2)

    pub visit_exprs : KernelExprs → ℕ → ExpressionVisitor → ExpressionVisitor
    visit_exprs no_children sibling v = v
    visit_exprs (child e es) sibling v = visit_exprs es sibling (visit_expr e sibling v)

  -- `VisitKernelExpression`: a fresh visitor, and the kernel's visit into a top-level list.
  unfoldable pub visit_kernel_expression : KernelExprs → Result (Option Exprs)
  unfolding start make_field_list finish visit_exprs
  visit_kernel_expression expression =
      let (id, v) = make_field_list start in finish id (visit_exprs expression id v)

abbrev pub is_some {ℓ} : {A : Type ℓ} → Option A → Bool
is_some none = false
is_some (some a) = true

abbrev pub is_ok {ℓ} : {A : Type ℓ} → Result A → Bool
is_ok (ok a) = true
is_ok (err e) = false

abbrev compared : ExpressionType → Option (Expr × Expr) → Body
compared t none = constant null
compared t (some (l, r)) = comparison t l r

-- The expression that an element with well-formed children stands for.
abbrev pub node_body : Node → Exprs → Body
node_body add es = function (codes "+") es true
node_body minus es = function (codes "-") es true
node_body multiply es = function (codes "*") es true
node_body divide es = function (codes "/") es true
node_body array es = function (codes "list_value") es false
node_body struct_expr es = function (codes "struct_pack") es false
node_body not_op es = function (codes "NOT") es true
node_body is_null es = function (codes "IS") (snoc_expr (plain (constant null)) es) true
node_body and_op es = conjunction conjunction_and es
node_body or_op es = conjunction conjunction_or es
node_body in_op es = operator compare_in es
node_body lt es = compared compare_lessthan (operands es)
node_body gt es = compared compare_greaterthan (operands es)
node_body eq es = compared compare_equal (operands es)
node_body distinct es = compared compare_distinct_from (operands es)

abbrev pub map_body : Option (Values × LogicalType) → Option (Values × LogicalType) → Body
map_body none r = constant null
map_body (some (ks, t)) none = constant null
map_body (some (ks, t)) (some (vs, u)) = constant (map_value t u ks vs)

abbrev pub made : Result Value → Body
made (ok x) = constant x
made (err e) = constant null

module _ (lib : Library) where
  unfoldable mutual
    pub to_expr : KernelExpr → Expr
    to_expr (literal x) = plain (constant (literal_value x))
    to_expr (column name) = plain (column_ref (unquote name))
    to_expr (decimal ms ls p s) = plain (made (lib.make_decimal (hugeint ms ls) p s))
    to_expr (node n es) = plain (node_body n (to_exprs es))
    to_expr (struct_literal ks es) = plain (
        function (codes "struct_pack") (set_aliases lib.to_string (to_exprs ks) (to_exprs es))
          false)
    to_expr (map_literal ks es) =
        plain (map_body (constants (to_exprs ks) invalid) (constants (to_exprs es) invalid))

    pub to_exprs : KernelExprs → Exprs
    to_exprs no_children = no_exprs
    to_exprs (child e es) = then_expr (to_expr e) (to_exprs es)

-- A comparison has two operands.
abbrev pub has_arity : Node → Exprs → Bool
has_arity lt es = is_some (operands es)
has_arity gt es = is_some (operands es)
has_arity eq es = is_some (operands es)
has_arity distinct es = is_some (operands es)
has_arity add es = true
has_arity minus es = true
has_arity multiply es = true
has_arity divide es = true
has_arity array es = true
has_arity struct_expr es = true
has_arity not_op es = true
has_arity is_null es = true
has_arity and_op es = true
has_arity or_op es = true
has_arity in_op es = true

-- What the visitor needs of an expression: comparisons of two operands, decimals that DuckDB takes and,
-- where the precision is below 18, that are not negative and fit 63 bits, as many names as values in a struct, constants alone in a map.
module _ (lib : Library) where
  unfoldable mutual
    pub IsWellFormed : KernelExpr → Type 0
    IsWellFormed (literal x) = Unit
    IsWellFormed (column name) = Unit
    IsWellFormed (decimal ms ls p s) =
        (is_ok (lib.make_decimal (hugeint ms ls) p s) ≡ true)
        × ((ltb p max_width_int64 ≡ false) ⊎ ((ms ≡ pos 0) × (ls < 2 ^ 63)))
    IsWellFormed (node n es) = (has_arity n (to_exprs lib es) ≡ true) × AreWellFormed es
    IsWellFormed (struct_literal ks es) =
        ((count_exprs (to_exprs lib es) == count_exprs (to_exprs lib ks)) ≡ true)
        × AreWellFormed ks
        × AreWellFormed es
    IsWellFormed (map_literal ks es) =
        (is_some (constants (to_exprs lib ks) invalid) ≡ true)
        × (is_some (constants (to_exprs lib es) invalid) ≡ true)
        × AreWellFormed ks
        × AreWellFormed es

    pub AreWellFormed : KernelExprs → Type 0
    AreWellFormed no_children = Unit
    AreWellFormed (child e es) = IsWellFormed e × AreWellFormed es

-- The number of lists that a visit allocates.
unfoldable mutual
  pub cost : KernelExpr → ℕ
  cost (literal x) = 0
  cost (column name) = 0
  cost (decimal ms ls p s) = 0
  cost (node n es) = 1 + cost_all es
  cost (struct_literal ks es) = 2 + (cost_all ks + cost_all es)
  cost (map_literal ks es) = 2 + (cost_all ks + cost_all es)

  pub cost_all : KernelExprs → ℕ
  cost_all no_children = 0
  cost_all (child e es) = cost e + cost_all es
