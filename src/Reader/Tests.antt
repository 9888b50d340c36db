-- ===== src/Reader/Tests.antt =====
-- A table with one partition column and two files, and the theorems at it.
use duckdb_delta.Prelude.{
  ℕ, ◌≡◌, refl, none, some, true, false, [], ◌∷◌, List, Str, codes, ok, ok_inj, sym, ap, map, All,
  pos, ltb, not, arith,
}
use duckdb_delta.Types.{Fields, end, field, integer}
use duckdb_delta.Values.{typed_null, type_of, string, integer_value, ubigint_value}
use duckdb_delta.Columns.{ColumnDefs, no_columns, then_column, column_def}
use duckdb_delta.FileList.State.{DeltaFileMetaData, DeltaMultiFileList, create}
use duckdb_delta.FileList.Expand.{get_metadata, get_partition_columns}
use duckdb_delta.FileList.Init.{ensure_scan_initialized, ensure_snapshot_initialized}
use duckdb_delta.Fixtures.{kernel}
use duckdb_delta.Reader.Host.{
  Host, BindState, FileReader, ReaderData, delta_file_number_column, find_value,
}
use duckdb_delta.Reader.Constants.{column_at, finalize_bind}
use duckdb_delta.Reader.Bound.{constants_of}
use duckdb_delta.Reader.Files.{IsCast, finalize_bind-partition, delta_file_number_is_seven}
use duckdb_delta.Reader.Typed.{CastsToType, finalize_bind-type_of}
use duckdb_delta.Reader.Options.{find_option, bind_options, disable}
use duckdb_delta.Reader.Columns.{size, columns_to_use}
use duckdb_delta.Reader.Binding.{columns_to_use-column_at}
use duckdb_delta.Reader.Partitions.{IsPlaced, bind_options-partitions}

-- Virtual columns begin at 2^63; every cast succeeds.
abbrev pub host : Host
host = record {
  filename_column = 9223372036854775808;
  file_index_column = 9223372036854775809;
  is_virtual_column = λ c. not (ltb c 9223372036854775808);
  default_cast_as = λ t v. ok (integer_value (pos 4));
  get_bool = λ v. ok true;
  get_string = λ v. ok [];
  bind_options = λ b. ok b;
  parse_option = λ key v o. ok (false, o);
}

abbrev metadata : DeltaFileMetaData
metadata = record {
  delta_snapshot_version = 5;
  file_number = 0;
  cardinality = 3;
  selection_vector = some (true ∷ false ∷ []);
  partition_map = (codes "part", string (codes "4")) ∷ [];
  transform_expression = none;
}

abbrev table : DeltaMultiFileList
table = record (create (codes "d/")) {
  snapshot = some 2;
  initialized_snapshot = true;
  initialized_scan = true;
  partitions = codes "part" ∷ [];
  metadata = metadata ∷ [];
}

abbrev columns : Fields
columns = field (codes "i") integer (field (codes "Part") integer end)

abbrev column : Str → ColumnDefs → ColumnDefs
column n cs = then_column (column_def n integer none none no_columns) cs

abbrev pub global_columns : ColumnDefs
global_columns = column (codes "i") (column (codes "Part") no_columns)

abbrev reader : FileReader
reader = record {
  columns = field (codes "i") integer end;
  file_name = codes "d/f";
  file_list_idx = 0;
  deletion_filter = none;
}

abbrev ids : List ℕ
ids = 1 ∷ 0 ∷ delta_file_number_column ∷ []

abbrev bound : ReaderData
bound = record {
  constant_map = (2, ubigint_value 7) ∷ (0, integer_value (pos 4)) ∷ [];
  deletion_filter = some (true ∷ false ∷ []);
}

binds : finalize_bind host false none reader global_columns ids table ≡ ok bound
unfolding finalize_bind create
binds = refl

has_metadata : get_metadata 0 table ≡ ok metadata
unfolding get_metadata create
has_metadata = refl

at_part : column_at global_columns 1 ≡ ok (codes "Part", integer)
unfolding column_at
at_part = refl

part_of_file : find_value (codes "Part") metadata.partition_map ≡ some (string (codes "4"))
unfolding find_value
part_of_file = refl

finalize_bind-partition_example :
    IsCast host integer
      (find_value (codes "Part") metadata.partition_map)
      (constants_of 0 bound.constant_map)
finalize_bind-partition_example =
    finalize_bind-partition host none reader global_columns ids table bound metadata 0 1
      (codes "Part") integer binds has_metadata refl ((refl, refl), refl, refl) at_part

seven : constants_of 2 bound.constant_map ≡ ubigint_value 7 ∷ []
seven =
    delta_file_number_is_seven host false none reader global_columns ids table bound metadata 2
      binds has_metadata refl (refl, refl) refl

extra_size : size global_columns ≡ 2
unfolding size
extra_size = refl

extra_columns_run :
    column_at (columns_to_use (column (codes "i") no_columns) global_columns) 1
    ≡ column_at global_columns 1
unfolding size
extra_columns_run =
    (columns_to_use-column_at (column (codes "i") no_columns) global_columns 1).1 (omega arith)
      (omega arith)

abbrev unbound : BindState
unbound = record {
  options = record {
    auto_detect_hive_partitioning = true;
    hive_partitioning = false;
    union_by_name = true;
    custom_options = [];
  };
  columns = columns;
  filename_idx = none;
  hive_partitioning_indexes = [];
  schema = no_columns;
}

no_setting : find_option (codes "pushdown_partition_info") [] ≡ none
unfolding find_option
no_setting = refl

partitions_of_table : get_partition_columns kernel table ≡ (ok (codes "part" ∷ []), table)
unfolding get_partition_columns ensure_scan_initialized ensure_snapshot_initialized create
partitions_of_table = refl

bind_options-partitions_example :
    (b2 : BindState) × ((bind_options host kernel unbound table ≡ (ok b2, table))
      × ((map (λ p. p.0) b2.hive_partitioning_indexes ≡ codes "part" ∷ [])
          × All (IsPlaced columns) b2.hive_partitioning_indexes))
bind_options-partitions_example =
    bind_options-partitions host kernel unbound (disable unbound) table table (codes "part" ∷ [])
      refl no_setting refl partitions_of_table ((1, refl), tt)

-- A host whose casts give a value of the type asked for, if only NULL.
abbrev casting : Host
casting = record host { default_cast_as = λ t v. ok (typed_null t) }

casting-CastsToType : CastsToType casting
casting-CastsToType t v w h = sym (ap type_of (ok_inj (typed_null t) w h))

abbrev with_null : ReaderData
with_null = record {
  constant_map = (2, ubigint_value 7) ∷ (0, typed_null integer) ∷ [];
  deletion_filter = some (true ∷ false ∷ []);
}

casts : finalize_bind casting false none reader global_columns ids table ≡ ok with_null
unfolding finalize_bind create
casts = refl

finalize_bind-type_of_example :
    All (λ v. type_of v ≡ integer) (constants_of 0 with_null.constant_map)
finalize_bind-type_of_example =
    finalize_bind-type_of casting false none reader global_columns ids table with_null 0 1
      (codes "Part") integer casting-CastsToType casts refl ((refl, refl), refl, refl) at_part
