-- ===== src/Columns.antt =====
-- `ConstructGlobalColDefs` and `InjectColumnIdentifiers` (delta_multi_file_list.cpp): the global
-- columns with the names under which the data files hold them.
use duckdb_delta.Prelude.{
  Bool, false, Option, none, some, List, [], ◌∷◌, ◌||◌, Str, codes, str_eq, Result, ok, throw, io,
  internal, ◌>>=◌, if◌then◌else◌,
}
use duckdb_delta.Types.{LogicalType, Fields, end, field, struct}
use duckdb_delta.Values.{Value, typed_null}

-- `MultiFileColumnDefinition`, and a vector of them.
mutual
  pub data ColumnDef : Type 0 where
    column_def : Str → LogicalType → Option Value → Option Str → ColumnDefs → ColumnDef

  pub data ColumnDefs : Type 0 where
    no_columns : ColumnDefs
    then_column : ColumnDef → ColumnDefs → ColumnDefs

abbrev pub mem_str : Str → List Str → Bool
mem_str s [] = false
mem_str s (t ∷ ts) = str_eq s t || mem_str s ts

-- `name_map` and `physical_type_map` together: assigning a name again replaces its entry.
abbrev pub NameMap : Type 0
NameMap = List (Str × Str × LogicalType)

unfoldable pub find_name : Str → NameMap → Option (Str × LogicalType)
find_name n [] = none
find_name n ((m, p, t) ∷ l) = if str_eq m n then some (p, t) else find_name n l

unfoldable pub assign_name : Str → Str → LogicalType → NameMap → NameMap
assign_name n p t [] = (n, p, t) ∷ []
assign_name n p t ((m, q, u) ∷ l) =
    if str_eq m n then (n, p, t) ∷ l else (m, q, u) ∷ assign_name n p t l

-- The loop over the logical columns: partition columns are passed over, each other one takes the
-- next physical column.
unfoldable pub map_physical : List Str → Fields → Fields → NameMap → Result NameMap
unfolding assign_name
map_physical partitions end physical m = ok m
map_physical partitions (field n t logical) end m =
    let rest = map_physical partitions logical end m in
    if mem_str n partitions
    then rest
    else throw io (codes "Failed to map physical schema to logical")
map_physical partitions (field n t logical) (field p u physical) m =
    let skip = map_physical partitions logical (field p u physical) m in
    let take = map_physical partitions logical physical (assign_name n p u m) in
    if mem_str n partitions then skip else take

abbrev or_own : Str → LogicalType → Option (Str × LogicalType) → Str × LogicalType
or_own n t none = (n, t)
or_own n t (some r) = r

-- `all_names` and `all_types`.
unfoldable pub physical_columns : NameMap → Fields → Fields
unfolding find_name
physical_columns m end = end
physical_columns m (field n t fs) =
    let (p, u) = or_own n t (find_name n m) in field p u (physical_columns m fs)

abbrev children_of : LogicalType → Fields
children_of (struct fs) = fs
children_of _ = end

-- One round for each column; the recursion goes into the children of structs. Reading past the end of
-- a vector throws.
unfoldable mutual
  pub inject_column : LogicalType → Str → LogicalType → ColumnDef → Result ColumnDef
  inject_column (struct fs) all_name all_type (column_def n t d i children) = do
    cs ← inject_column_identifiers fs (children_of all_type) children
    ok (column_def n t (some (typed_null t)) (some all_name) cs)
  inject_column _ all_name all_type (column_def n t d i children) =
      ok (column_def n t (some (typed_null t)) (some all_name) children)

  pub inject_column_identifiers : Fields → Fields → ColumnDefs → Result ColumnDefs
  inject_column_identifiers end all defs = ok defs
  inject_column_identifiers (field n t fs) end defs = throw internal (codes "vector index")
  inject_column_identifiers (field n t fs) (field p u all) no_columns =
      throw internal (codes "vector index")
  inject_column_identifiers (field n t fs) (field p u all) (then_column c defs) = do
    c' ← inject_column t p u c
    rest ← inject_column_identifiers fs all defs
    ok (then_column c' rest)

-- `columns_from` is DuckDB's `ColumnsFromNamesAndTypes`.
unfoldable pub construct_global_col_defs :
    (Fields → ColumnDefs) → Fields → List Str → Fields → Fields → Result ColumnDefs
unfolding map_physical physical_columns inject_column
construct_global_col_defs columns_from columns partitions schema_physical schema_logical = do
  name_map ← map_physical partitions schema_logical schema_physical []
  inject_column_identifiers columns (physical_columns name_map columns) (columns_from columns)

-- The two schemas are read first, either of which may throw.
unfoldable pub construct_from_schemas :
    (Fields → ColumnDefs) → Fields → List Str → Result Fields → Result Fields → Result ColumnDefs
unfolding construct_global_col_defs
construct_from_schemas columns_of columns partitions physical logical = do
  p ← physical
  l ← logical
  construct_global_col_defs columns_of columns partitions p l
