-- ===== src/Functions/Tests.antt =====
-- A Parquet scan, and the theorems on what is made of it.
use duckdb_delta.Prelude.{
  ◌≡◌, refl, ap, true, false, [], ◌∷◌, Str, codes, str_eq, str_eq_refl, eq_of-str_eq, lower, Result,
  ok, Bool,
}
use duckdb_delta.Types.{varchar, boolean}
use duckdb_delta.Values.{string}
use duckdb_delta.Reader.Host.{Host, MultiFileOptions, ci_equals}
use duckdb_delta.Reader.Options.{parse_option}
use duckdb_delta.Functions.{
  null_pointer, duckdb_function, TableFunction, TableFunctionSet, inject, get_delta_scan_function,
  erase, assign, find_parameter,
}
use duckdb_delta.Functions.Parameters.{IsKeyEquality}
use duckdb_delta.Functions.Injected.{ArePairs, get_delta_scan_function_lem, inject-parse_option}

ci_same : (m n : Str) → ci_equals m n ≡ true → lower m ≡ lower n
ci_same m n h = eq_of-str_eq (lower m) (lower n) h

ci_equals-IsKeyEquality : IsKeyEquality ci_equals
ci_equals-IsKeyEquality = record {
  key_refl = λ n. str_eq_refl (lower n);
  key_same = λ m n k h. ap (λ x. str_eq x (lower k)) (ci_same m n h);
}

abbrev parquet_scan : TableFunction
parquet_scan = record {
  name = codes "parquet_scan";
  bind_function = duckdb_function 1;
  get_multi_file_reader = null_pointer;
  serialize = duckdb_function 2;
  deserialize = duckdb_function 3;
  statistics = duckdb_function 4;
  table_scan_progress = duckdb_function 5;
  get_bind_info = duckdb_function 6;
  get_virtual_columns = duckdb_function 7;
  to_string = null_pointer;
  late_materialization = true;
  named_parameters = (codes "Schema", varchar) ∷ (codes "file_row_number", boolean) ∷ [];
}

abbrev parquet_set : TableFunctionSet
parquet_set = record { name = codes "parquet_scan"; functions = parquet_scan ∷ [] }

-- An instance is whether `parquet` is loaded.
abbrev auto_load : Str → Bool → Result Bool
auto_load name loaded = ok true

abbrev get : Str → Bool → Result TableFunctionSet
get name loaded = ok parquet_set

abbrev delta_set : TableFunctionSet
delta_set = record { name = codes "delta_scan"; functions = inject ci_equals parquet_scan ∷ [] }

get_delta_scan_function_lem_example :
    (delta_set.name ≡ codes "delta_scan")
    × (auto_load (codes "parquet") false ≡ ok true)
    × ((set : TableFunctionSet) × (get (codes "parquet_scan") true ≡ ok set)
        × ArePairs ci_equals set.functions delta_set.functions)
unfolding get_delta_scan_function
get_delta_scan_function_lem_example =
    get_delta_scan_function_lem ci_equals ci_equals-IsKeyEquality auto_load get false true delta_set
      refl

abbrev host : Host
host = record {
  filename_column = 9223372036854775808;
  file_index_column = 9223372036854775809;
  is_virtual_column = λ c. false;
  default_cast_as = λ t v. ok v;
  get_bool = λ v. ok true;
  get_string = λ v. ok [];
  bind_options = λ b. ok b;
  parse_option = λ key v o. ok (false, o);
}

abbrev no_options : MultiFileOptions
no_options = record {
  auto_detect_hive_partitioning = false;
  hive_partitioning = false;
  union_by_name = false;
  custom_options = [];
}

inject-parse_option_runs :
    (p : MultiFileOptions) × (parse_option host
        (codes "PUSHDOWN_filters")
        (string (codes "all"))
        no_options
      ≡ ok (true, p))
unfolding find_parameter inject erase assign
inject-parse_option_runs =
    inject-parse_option ci_equals ci_equals-IsKeyEquality host parquet_scan
      (codes "PUSHDOWN_filters") varchar (string (codes "all")) no_options ci_same refl refl
