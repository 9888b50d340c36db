-- ===== src/Functions.antt =====
-- The functions that the extension offers: `delta_scan`, which is DuckDB's Parquet scan with another reader
-- (functions/delta_scan/delta_scan.cpp), and their lists (delta_functions.cpp,
-- functions/expression_functions.cpp).
pub mod Parameters
pub mod Injected
mod Tests
use duckdb_delta.Prelude.{
  ℕ, Bool, true, false, Option, none, some, List, [], ◌∷◌, map, Str, codes, Result, ok, ◌>>=◌,
  if◌then◌else◌,
}
use duckdb_delta.Types.{LogicalType, boolean, varchar, bigint, ubigint, list}
use duckdb_delta.Reader.Host.{delta_file_number_column}
use duckdb_delta.Storage.Attach.{ScanFunction}

-- A function pointer: null, one of DuckDB's, or one of the extension's.
pub data Callback : Type 0 where
  null_pointer : Callback
  duckdb_function : ℕ → Callback
  delta_create_instance delta_virtual_columns delta_function_to_string : Callback
  get_delta_test_expression : Callback

-- `named_parameters`: a map whose keys are compared by `same_key`.
abbrev pub Parameters : Type 0
Parameters = List (Str × LogicalType)

module _ (same_key : Str → Str → Bool) where
  unfoldable pub erase : Str → Parameters → Parameters
  erase n [] = []
  erase n ((m, t) ∷ ps) = let rest = erase n ps in if same_key m n then rest else (m, t) ∷ rest

  unfoldable pub assign : Str → LogicalType → Parameters → Parameters
  assign n t [] = (n, t) ∷ []
  assign n t ((m, u) ∷ ps) =
      let rest = assign n t ps in if same_key m n then (m, t) ∷ ps else (m, u) ∷ rest

  unfoldable pub find_parameter : Str → Parameters → Option LogicalType
  find_parameter n [] = none
  find_parameter n ((m, t) ∷ ps) = if same_key m n then some t else find_parameter n ps

-- DuckDB's `TableFunction`, as far as the extension writes it; `bind_function` stands for the rest.
pub record TableFunction : Type 0 where
  pub name : Str
  pub bind_function : Callback
  pub get_multi_file_reader : Callback
  pub serialize : Callback
  pub deserialize : Callback
  pub statistics : Callback
  pub table_scan_progress : Callback
  pub get_bind_info : Callback
  pub get_virtual_columns : Callback
  pub to_string : Callback
  pub late_materialization : Bool
  pub named_parameters : Parameters

pub record TableFunctionSet : Type 0 where
  pub name : Str
  pub functions : List TableFunction

-- One round of the loop of `GetDeltaScanFunction`.
unfoldable pub inject : (Str → Str → Bool) → TableFunction → TableFunction
unfolding erase assign
inject same_key f = record f {
  get_multi_file_reader = delta_create_instance;
  serialize = null_pointer;
  deserialize = null_pointer;
  statistics = null_pointer;
  table_scan_progress = null_pointer;
  get_bind_info = null_pointer;
  get_virtual_columns = delta_virtual_columns;
  late_materialization = false;
  to_string = delta_function_to_string;
  named_parameters = assign same_key (codes "pushdown_filters") varchar (
      assign same_key (codes "pushdown_partition_info") boolean
        (erase same_key (codes "schema") f.named_parameters));
  name = codes "delta_scan";
}

-- `GetDeltaScanFunction`: the extension `parquet` is loaded first, and its function is looked up in the
-- catalog.
unfoldable pub get_delta_scan_function :
    {I : Type 0}
    → (Str → Str → Bool)
    → (Str → I → Result I)
    → (Str → I → Result TableFunctionSet)
    → I
    → Result (TableFunctionSet × I)
unfolding inject
get_delta_scan_function {I} same_key auto_load_extension get_table_function instance_ = do
  loaded ← auto_load_extension (codes "parquet") instance_
  set ← get_table_function (codes "parquet_scan") loaded
  ok (record { name = codes "delta_scan"; functions = map (inject same_key) set.functions }, loaded)

-- `DeltaFunctionToString`: what EXPLAIN shows of a scan.
unfoldable pub delta_function_to_string_of : Option ScanFunction → List (Str × Str)
delta_function_to_string_of none = []
delta_function_to_string_of (some info) = (codes "Table", info.table_name) ∷ []

-- The numbers of DuckDB's virtual columns.
pub record VirtualColumns : Type 0 where
  pub filename : ℕ
  pub file_row_number : ℕ
  pub row_id : ℕ
  pub empty : ℕ

-- `DeltaVirtualColumns`; they are written to the bind data too.
unfoldable pub delta_virtual_columns_of : VirtualColumns → List (ℕ × (Str × LogicalType))
delta_virtual_columns_of c =
    (c.filename, (codes "filename", varchar))
    ∷ (c.file_row_number, (codes "file_row_number", bigint))
    ∷ (c.row_id, (codes "rowid", bigint))
    ∷ (c.empty, ([], boolean))
    ∷ (delta_file_number_column, (codes "delta_file_number", ubigint))
    ∷ []

pub record ScalarFunction : Type 0 where
  pub arguments : List LogicalType
  pub return_type : LogicalType
  pub function : Callback

pub record ScalarFunctionSet : Type 0 where
  pub name : Str
  pub functions : List ScalarFunction

-- `GetExpressionFunction`.
unfoldable pub get_expression_function : ScalarFunctionSet
get_expression_function = record {
  name = codes "get_delta_test_expression";
  functions =
      record { arguments = []; return_type = list varchar; function = get_delta_test_expression }
      ∷ [];
}

-- `GetScalarFunctions`.
unfoldable pub get_scalar_functions : List ScalarFunctionSet
unfolding get_expression_function
get_scalar_functions = get_expression_function ∷ []

-- `GetTableFunctions`.
unfoldable pub get_table_functions :
    {I : Type 0}
    → (Str → Str → Bool)
    → (Str → I → Result I)
    → (Str → I → Result TableFunctionSet)
    → I
    → Result (List TableFunctionSet × I)
unfolding get_delta_scan_function
get_table_functions {I} same_key auto_load_extension get_table_function instance_ = do
  r ← get_delta_scan_function same_key auto_load_extension get_table_function instance_
  ok (r.0 ∷ [], r.1)
