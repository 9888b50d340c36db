-- ===== src/Types.antt =====
-- DuckDB's `LogicalType` as far as the extension builds it, with `child_list_t<LogicalType>`.
use duckdb_delta.Prelude.{ℕ, Str}

mutual
  pub data LogicalType : Type 0 where
    invalid sqlnull boolean tinyint smallint integer bigint float double : LogicalType
    varchar blob date timestamp timestamp_tz ubigint uinteger : LogicalType
    decimal : ℕ → ℕ → LogicalType
    struct : Fields → LogicalType
    list : LogicalType → LogicalType
    map : Fields → LogicalType
    map_of : LogicalType → LogicalType → LogicalType

  pub data Fields : Type 0 where
    end : Fields
    field : Str → LogicalType → Fields → Fields

-- `emplace_back`.
unfoldable pub snoc : Str → LogicalType → Fields → Fields
snoc name type end = field name type end
snoc name type (field n t fs) = field n t (snoc name type fs)

unfoldable pub append : Fields → Fields → Fields
append end gs = gs
append (field n t fs) gs = field n t (append fs gs)
