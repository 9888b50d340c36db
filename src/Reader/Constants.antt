-- ===== src/Reader/Constants.antt =====
-- `FinalizeBind` and `FinalizeBindBaseOverride`: the constant columns of a file, and its deletion filter.
use duckdb_delta.Prelude.{
  ℕ, zero, suc, ◌==◌, ◌++◌, ◌||◌, Bool, false, Option, none, some, List, [], ◌∷◌, Str, codes,
  Result, ok, throw, internal, ◌>>=◌, if◌then◌else◌,
}
use duckdb_delta.Types.{LogicalType, Fields, end, field}
use duckdb_delta.Values.{Value, string, ubigint_value, typed_null}
use duckdb_delta.Columns.{ColumnDefs, no_columns, then_column, column_def}
use duckdb_delta.FileList.State.{DeltaMultiFileList}
use duckdb_delta.FileList.Expand.{get_metadata}
use duckdb_delta.Reader.Host.{
  Host, FileReader, Constants, ReaderData, delta_file_number_column, ci_equals, find_value,
}

-- The name and the type of a global column.
unfoldable pub column_at : ColumnDefs → ℕ → Result (Str × LogicalType)
column_at no_columns i = throw internal (codes "Attempted to access index outside a vector")
column_at (then_column (column_def n t d id children) cs) zero = ok (n, t)
column_at (then_column c cs) (suc i) = column_at cs i

-- A name is in the map of the file's columns.
unfoldable pub has_name : Str → Fields → Bool
has_name n end = false
has_name n (field m t fs) = ci_equals m n || has_name n fs

abbrev pub is_index : ℕ → Option ℕ → Bool
is_index c none = false
is_index c (some i) = c == i

-- A column that the file does not have is null.
unfoldable pub missing_constant : FileReader → ColumnDefs → ℕ → Result (Option Value)
unfolding column_at has_name
missing_constant reader global_columns column_id = do
  column ← column_at global_columns column_id
  ok (if has_name (column.0) reader.columns then none else some (typed_null (column.1)))

-- One round of `FinalizeBindBaseOverride`: the constant that it adds for a column.
unfoldable pub base_constant :
    Host → Bool → Option ℕ → FileReader → ColumnDefs → ℕ → Result (Option Value)
unfolding missing_constant
base_constant host union_by_name filename_idx reader global_columns column_id =
    if is_index column_id filename_idx || column_id == host.filename_column
    then ok (some (string reader.file_name))
    else if column_id == host.file_index_column
    then ok (some (ubigint_value reader.file_list_idx))
    else if column_id == delta_file_number_column
    then ok (some (ubigint_value 7))
    else if host.is_virtual_column column_id
    then ok none
    else if union_by_name
    then missing_constant reader global_columns column_id
    else ok none

abbrev pub cast : Host → LogicalType → Option Value → Result (Option Value)
cast host type none = ok none
cast host type (some v) = do w ← host.default_cast_as type v; ok (some w)

-- The value of the file's partition, cast to the column's type.
unfoldable pub partition_value : Host → ColumnDefs → List (Str × Value) → ℕ → Result (Option Value)
unfolding column_at find_value
partition_value host global_columns partition_map col_id = do
  column ← column_at global_columns col_id
  cast host (column.1) (find_value (column.0) partition_map)

-- One round of the loop over the columns in `FinalizeBind`.
unfoldable pub partition_constant :
    Host → ColumnDefs → List (Str × Value) → ℕ → Result (Option Value)
unfolding partition_value
partition_constant host global_columns partition_map col_id =
    if host.is_virtual_column col_id
    then ok none
    else partition_value host global_columns partition_map col_id

abbrev pub entry : ℕ → Option Value → Constants
entry i none = []
entry i (some v) = (i, v) ∷ []

-- A loop over the columns that are read, from place `i` on.
unfoldable pub each_column : (ℕ → Result (Option Value)) → ℕ → List ℕ → Constants → Result Constants
each_column round i [] m = ok m
each_column round i (c ∷ ids) m =
    let rest = λ (v : Option Value). each_column round (suc i) ids (m ++ entry i v) in
    round c >>= rest

abbrev pub or_keep : Option (List Bool) → Option (List Bool) → Option (List Bool)
or_keep none old = old
or_keep (some v) old = some v

-- An empty map of partitions is passed over.
unfoldable pub partition_constants :
    Host → ColumnDefs → List (Str × Value) → List ℕ → Constants → Result Constants
unfolding each_column partition_constant
partition_constants host global_columns [] ids m = ok m
partition_constants host global_columns (p ∷ ps) ids m =
    each_column (partition_constant host global_columns (p ∷ ps)) 0 ids m

-- `FinalizeBind`.
unfoldable pub finalize_bind :
    Host
    → Bool
    → Option ℕ
    → FileReader
    → ColumnDefs
    → List ℕ
    → DeltaMultiFileList
    → Result ReaderData
unfolding each_column base_constant partition_constants get_metadata
finalize_bind host union_by_name filename_idx reader global_columns ids snapshot = do
  m ← each_column (base_constant host union_by_name filename_idx reader global_columns) 0 ids []
  metadata ← get_metadata reader.file_list_idx snapshot
  constants ← partition_constants host global_columns metadata.partition_map ids m
  ok (record {
    constant_map = constants;
    deletion_filter = or_keep metadata.selection_vector reader.deletion_filter;
  })
