-- ===== src/Reader/Host.antt =====
-- What the reader takes from DuckDB, and its data.
use duckdb_delta.Prelude.{
  ℕ, ◌^◌, Bool, none, some, Option, List, [], ◌∷◌, Str, str_eq, lower, Result, if◌then◌else◌,
}
use duckdb_delta.Types.{LogicalType, Fields}
use duckdb_delta.Values.{Value}
use duckdb_delta.Columns.{ColumnDefs}

-- `MultiFileOptions`.
pub record MultiFileOptions : Type 0 where
  pub auto_detect_hive_partitioning : Bool
  pub hive_partitioning : Bool
  pub union_by_name : Bool
  pub custom_options : List (Str × Value)

-- What `BindOptions` changes: the options, the names with the types, and parts of `MultiFileReaderBindData`.
pub record BindState : Type 0 where
  pub options : MultiFileOptions
  pub columns : Fields
  pub filename_idx : Option ℕ
  pub hive_partitioning_indexes : List (Str × ℕ)
  pub schema : ColumnDefs

-- DuckDB's constants and functions: two of the virtual columns, `IsVirtualColumn`,
-- `Value::DefaultCastAs`, `Value::GetValue`
-- for Booleans and strings, and the methods of the base class.
pub record Host : Type 0 where
  pub filename_column : ℕ
  pub file_index_column : ℕ
  pub is_virtual_column : ℕ → Bool
  pub default_cast_as : LogicalType → Value → Result Value
  pub get_bool : Value → Result Bool
  pub get_string : Value → Result Str
  pub bind_options : BindState → Result BindState
  pub parse_option : Str → Value → MultiFileOptions → Result (Bool × MultiFileOptions)

-- `DELTA_FILE_NUMBER_COLUMN_ID`.
abbrev pub delta_file_number_column : ℕ
delta_file_number_column = 10 ^ 19

-- A file's reader: its columns, its name and its number in the list.
pub record FileReader : Type 0 where
  pub columns : Fields
  pub file_name : Str
  pub file_list_idx : ℕ
  pub deletion_filter : Option (List Bool)

-- The constants of the columns that are read, each with the column's place.
abbrev pub Constants : Type 0
Constants = List (ℕ × Value)

-- What `FinalizeBind` changes.
pub record ReaderData : Type 0 where
  pub constant_map : Constants
  pub deletion_filter : Option (List Bool)

-- `StringUtil::CIEquals`.
abbrev pub ci_equals : Str → Str → Bool
ci_equals a b = str_eq (lower a) (lower b)

-- `find` in a case-insensitive map.
unfoldable pub find_value : Str → List (Str × Value) → Option Value
find_value n [] = none
find_value n ((m, v) ∷ l) = if ci_equals m n then some v else find_value n l
