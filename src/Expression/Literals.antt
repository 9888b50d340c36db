-- ===== src/Expression/Literals.antt =====
-- The literals, the column and the elements with two child lists of `ExpressionVisitor`.
use duckdb_delta.Prelude.{
  ℕ, suc, ◌+◌, ◌-◌, ◌*◌, ◌^◌, Option, none, some, Bool, false, Str, codes, [], ◌∷◌, ◌==◌, ◌&&◌, ltb,
  if◌then◌else◌, ErrorData, Result, ok, err, ℤ, pos, negsuc, is_negative, negate, to_int64, length,
  take, drop, get_last?,
}
use duckdb_delta.Types.{LogicalType, invalid}
use duckdb_delta.Values.{
  Value, null, boolean, tinyint_value, smallint_value, integer_value, bigint_value, float_bits,
  double_bits, string, bytes, timestamp_tz_value, timestamp_value, date_value, map_value, Values,
  no_values, value, type_of, Expr, expr, constant, column_ref, function, conjunction, comparison,
  operator, Exprs, no_exprs, then_expr, count_exprs, plain,
}
use duckdb_delta.Expression.{ExpressionVisitor, append_to_list, take_field_list, error_data}

-- What the visitor takes from DuckDB: `Value::DECIMAL`, which may throw, and
-- `ParsedExpression::ToString`; and what the negation of the least `int64_t` gives, which is undefined.
pub record Library : Type 0 where
  pub make_decimal : ℤ → ℕ → ℕ → Result Value
  pub to_string : Expr → Str
  pub overflow : ℤ

-- The arguments of the literal callbacks.
pub data Literal : Type 0 where
  bool_literal : Bool → Literal
  byte_literal short_literal int_literal long_literal : ℤ → Literal
  float_literal double_literal : ℕ → Literal
  timestamp_literal timestamp_ntz_literal date_literal : ℤ → Literal
  string_literal binary_literal : Str → Literal
  null_literal : Literal

-- The value that each callback makes.
unfoldable pub literal_value : Literal → Value
literal_value (bool_literal b) = boolean b
literal_value (byte_literal z) = tinyint_value z
literal_value (short_literal z) = smallint_value z
literal_value (int_literal z) = integer_value z
literal_value (long_literal z) = bigint_value z
literal_value (float_literal f) = float_bits f
literal_value (double_literal f) = double_bits f
literal_value (timestamp_literal z) = timestamp_tz_value z
literal_value (timestamp_ntz_literal z) = timestamp_value z
literal_value (date_literal z) = date_value z
literal_value (string_literal s) = string s
literal_value (binary_literal s) = bytes s
literal_value null_literal = null

unfoldable pub visit_literal : Literal → ℕ → ExpressionVisitor → ExpressionVisitor
unfolding append_to_list literal_value
visit_literal lit sibling_list_id v =
    append_to_list sibling_list_id (plain (constant (literal_value lit))) v

abbrev is_backtick : Option ℕ → Bool
is_backtick none = false
is_backtick (some c) = c == 96

abbrev first : Str → Option ℕ
first [] = none
first (c ∷ s) = some c

-- Delta's column references are sometimes back-quoted. The first character of an empty string reads
-- as its terminator; on one back-quote alone `size() - 2` wraps, and nothing is left either way.
unfoldable pub unquote : Str → Str
unquote s =
    if is_backtick (first s) && is_backtick (get_last? s) then take (length s - 2) (drop 1 s) else s

unfoldable pub visit_column_expression : Str → ℕ → ExpressionVisitor → ExpressionVisitor
unfolding append_to_list unquote
visit_column_expression name sibling_list_id v =
    append_to_list sibling_list_id (plain (column_ref (unquote name))) v

-- The negation of an `int64_t`, which overflows on the least one.
abbrev pub negate_int64 : ℤ → ℤ → ℤ
negate_int64 overflow (pos n) = negate (pos n)
negate_int64 overflow (negsuc n) = if n == 2 ^ 63 - 1 then overflow else pos (suc n)

-- `value_ls << 1 >> 1` is computed and dropped; what is returned is `value_ls` as a signed number,
-- negated if `value_ms` is negative.
unfoldable pub get_truncated_decimal_value : ℤ → ℤ → ℕ → ℤ
get_truncated_decimal_value overflow value_ms value_ls =
    let lower_cast = to_int64 value_ls in
    if is_negative value_ms then negate_int64 overflow lower_cast else lower_cast

-- `hugeint_t {value_ms, value_ls}`.
unfoldable pub hugeint : ℤ → ℕ → ℤ
hugeint (pos a) value_ls = pos (a * 2 ^ 64 + value_ls)
hugeint (negsuc a) value_ls = negsuc (suc a * 2 ^ 64 - value_ls - 1)

-- `Decimal::MAX_WIDTH_INT64`.
abbrev pub max_width_int64 : ℕ
max_width_int64 = 18

-- What `VisitDecimalLiteral` hands to `Value::DECIMAL`.
unfoldable pub decimal_argument : ℤ → ℤ → ℕ → ℕ → ℤ
unfolding get_truncated_decimal_value hugeint
decimal_argument overflow value_ms value_ls precision =
    if ltb precision max_width_int64
    then get_truncated_decimal_value overflow value_ms value_ls
    else hugeint value_ms value_ls

-- `children_values[i]->alias = children_keys[i]->ToString()`.
unfoldable pub set_aliases : (Expr → Str) → Exprs → Exprs → Exprs
set_aliases to_string no_exprs values = values
set_aliases to_string (then_expr k ks) no_exprs = no_exprs
set_aliases to_string (then_expr k ks) (then_expr (expr a b) es) =
    then_expr (expr (to_string k) b) (set_aliases to_string ks es)

-- The constants of a list with the type of the last; `none` if an element is no constant.
unfoldable pub constants : Exprs → LogicalType → Option (Values × LogicalType)
constants no_exprs t = some (no_values, t)
constants (then_expr (expr a (constant x)) es) t = elim (constants es (type_of x)) [
  | none ↦ none
  | some (xs, u) ↦ some (value x xs, u)
]
constants (then_expr (expr a (column_ref n)) es) t = none
constants (then_expr (expr a (function n cs o)) es) t = none
constants (then_expr (expr a (conjunction k cs)) es) t = none
constants (then_expr (expr a (comparison k l r)) es) t = none
constants (then_expr (expr a (operator k cs)) es) t = none

abbrev map_error : Option ErrorData
map_error = error_data (
    codes "DuckDB only supports parsing Map literals from delta kernel that consist for constants!")

-- The keys' list is taken first; a missing one leaves the values where they are.
unfoldable pub visit_literal_map : ℕ → ℕ → ℕ → ExpressionVisitor → ExpressionVisitor
unfolding append_to_list take_field_list constants
visit_literal_map key_list_id value_list_id sibling_list_id v =
    let (key_children, v1) = take_field_list key_list_id v in
    elim key_children [
      | none ↦ v1
      | some ks ↦
          let (value_children, v2) = take_field_list value_list_id v1 in
          elim value_children [
            | none ↦ v2
            | some vs ↦ elim (constants ks invalid) [
              | none ↦ record v2 { error = map_error }
              | some (keys, key_type) ↦ elim (constants vs invalid) [
                | none ↦ record v2 { error = map_error }
                | some (values, value_type) ↦
                    append_to_list sibling_list_id
                      (plain (constant (map_value key_type value_type keys values))) v2
              ]
            ]
          ]
    ]

module _ (lib : Library) where
  unfoldable pub visit_decimal_literal : ℤ → ℕ → ℕ → ℕ → ℕ → ExpressionVisitor → ExpressionVisitor
  unfolding append_to_list decimal_argument
  visit_decimal_literal value_ms value_ls precision scale sibling_list_id v =
      elim (lib.make_decimal (decimal_argument lib.overflow value_ms value_ls precision) precision
        scale) [
          | ok x ↦ append_to_list sibling_list_id (plain (constant x)) v
          | err e ↦ record v { error = some e }
        ]

  unfoldable pub visit_struct_literal : ℕ → ℕ → ℕ → ExpressionVisitor → ExpressionVisitor
  unfolding append_to_list take_field_list set_aliases count_exprs
  visit_struct_literal child_field_list_value child_value_list_id sibling_list_id v =
      let (children_keys, v1) = take_field_list child_field_list_value v in
      let (children_values, v2) = take_field_list child_value_list_id v1 in
      elim children_values [
        | none ↦ v2
        | some vs ↦ elim children_keys [
          | none ↦ v2
          | some ks ↦
              if count_exprs vs == count_exprs ks
              then append_to_list sibling_list_id
                  (plain (function (codes "struct_pack") (set_aliases lib.to_string ks vs) false))
                  v2
              else record v2 {
                error = error_data (
                    codes
                      "Size of Keys and Values vector do not match in ExpressionVisitor::VisitStructLiteral");
              }
        ]
      ]
