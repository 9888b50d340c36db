-- ===== src/Values.antt =====
-- DuckDB's `Value` and `ParsedExpression` as far as the extension builds them.
use duckdb_delta.Prelude.{ℕ, ℤ, Bool, Str, ◌+◌}
use mathlib.Core.List.{List}
use duckdb_delta.Types.{
  LogicalType, sqlnull, varchar, bigint, smallint, tinyint, blob, timestamp_tz, ubigint, map_of,
}

mutual
  pub data Value : Type 0 where
    null : Value
    typed_null : LogicalType → Value
    boolean : Bool → Value
    tinyint_value smallint_value integer_value bigint_value : ℤ → Value
    ubigint_value : ℕ → Value
    float_bits double_bits : ℕ → Value
    string : Str → Value
    bytes : Str → Value
    timestamp_tz_value timestamp_value date_value : ℤ → Value
    decimal_value : ℤ → ℕ → ℕ → Value
    map_value : LogicalType → LogicalType → Values → Values → Value

  pub data Values : Type 0 where
    no_values : Values
    value : Value → Values → Values

-- `Value::type()`.
abbrev pub type_of : Value → LogicalType
type_of null = sqlnull
type_of (typed_null t) = t
type_of (boolean b) = LogicalType.boolean
type_of (tinyint_value z) = tinyint
type_of (smallint_value z) = smallint
type_of (integer_value z) = LogicalType.integer
type_of (bigint_value z) = bigint
type_of (ubigint_value n) = ubigint
type_of (float_bits n) = LogicalType.float
type_of (double_bits n) = LogicalType.double
type_of (string s) = varchar
type_of (bytes s) = blob
type_of (timestamp_tz_value z) = timestamp_tz
type_of (timestamp_value z) = LogicalType.timestamp
type_of (date_value z) = LogicalType.date
type_of (decimal_value z p s) = LogicalType.decimal p s
type_of (map_value k v ks vs) = map_of k v

-- The expression types that the visitor asks for.
pub data ExpressionType : Type 0 where
  conjunction_and conjunction_or : ExpressionType
  compare_lessthan compare_greaterthan compare_equal compare_distinct_from : ExpressionType
  compare_in : ExpressionType

-- An expression is its alias and its body.
mutual
  pub data Expr : Type 0 where
    expr : Str → Body → Expr

  pub data Body : Type 0 where
    constant : Value → Body
    column_ref : Str → Body
    function : Str → Exprs → Bool → Body
    conjunction : ExpressionType → Exprs → Body
    comparison : ExpressionType → Expr → Expr → Body
    operator : ExpressionType → Exprs → Body

  pub data Exprs : Type 0 where
    no_exprs : Exprs
    then_expr : Expr → Exprs → Exprs

-- `emplace_back`.
unfoldable pub snoc_expr : Expr → Exprs → Exprs
snoc_expr e no_exprs = then_expr e no_exprs
snoc_expr e (then_expr f fs) = then_expr f (snoc_expr e fs)

unfoldable pub append_exprs : Exprs → Exprs → Exprs
append_exprs no_exprs gs = gs
append_exprs (then_expr f fs) gs = then_expr f (append_exprs fs gs)

unfoldable pub count_exprs : Exprs → ℕ
count_exprs no_exprs = 0
count_exprs (then_expr e es) = count_exprs es + 1

-- Expressions are made with an empty alias.
abbrev pub plain : Body → Expr
plain b = expr List.[] b
