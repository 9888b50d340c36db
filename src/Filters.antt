-- ===== src/Filters.antt =====
-- DuckDB's table filters as far as the extension reads them, and `TableFilterSet`.
use duckdb_delta.Prelude.{ℕ, Str, List}
use duckdb_delta.Values.{Value}

pub data Comparison : Type 0 where
  lessthan lessthanorequalto greaterthan greaterthanorequalto equal other_comparison : Comparison

mutual
  pub data TableFilter : Type 0 where
    constant_comparison : Comparison → Value → TableFilter
    conjunction_and : ChildFilters → TableFilter
    is_null is_not_null : TableFilter
    other_filter : Str → TableFilter

  pub data ChildFilters : Type 0 where
    no_filters : ChildFilters
    then_filter : TableFilter → ChildFilters → ChildFilters

-- `map<idx_t, unique_ptr<TableFilter>>`, in the order of the column indexes.
abbrev pub TableFilterSet : Type 0
TableFilterSet = List (ℕ × TableFilter)
