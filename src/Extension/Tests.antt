-- ===== src/Extension/Tests.antt =====
-- An instance that is its list of options, and the theorem on loading there.
use duckdb_delta.Prelude.{true, false, none, some, List, [], ◌∷◌, Str, codes, ok}
use duckdb_delta.Values.{Value}
use duckdb_delta.FileList.State.{DeltaMultiFileList, create}
use duckdb_delta.Reader.Host.{ci_equals}
use duckdb_delta.Reader.Options.{find_option}
use duckdb_delta.Pushdown.Report.{Reporting, ExtraInfo}
use duckdb_delta.Extension.{Loader}
use duckdb_delta.Extension.Loaded.{bool_of}

abbrev Options : Type 0
Options = List (Str × Value)

abbrev loader : Loader Options (Unit {0})
loader = record {
  same_key = ci_equals;
  auto_load_extension = λ n i. ok i;
  get_table_function = λ n i. ok (record { name = n; functions = [] });
  register_table_function = λ f i. ok i;
  register_scalar_function = λ f i. ok i;
  set_storage_extension = λ n i. i;
  add_extension_option = λ n o i. (n, o.default_value) ∷ i;
  register_log_type = λ n i. i;
  register_default_macro = λ m i. ok i;
  parse_query = λ q. ok tt;
  register_table_macro = λ m i. ok i;
  initialize_logger = λ i. i;
}

abbrev loaded : Options
loaded =
    (codes "delta_kernel_logging", Value.boolean false)
    ∷ (codes "delta_scan_explain_files_filtered", Value.boolean true)
    ∷ []

-- Nothing was counted before.
abbrev info : ExtraInfo
info = record { total_files = none; filtered_files = none; file_filters = [] }

abbrev reporting : Reporting
reporting = record {
  explain = some info;
  should_log = true;
  setting = λ n. bool_of (find_option n loaded);
  to_string = λ f n. n;
  pushdown_type = codes "constant";
}

-- A list all of whose files are known.
abbrev list_of : List Str → DeltaMultiFileList
list_of paths = record (create (codes "d/")) {
  initialized_snapshot = true;
  initialized_scan = true;
  files_exhausted = true;
  resolved_files = paths;
}

abbrev before : List Str
before = codes "d/a" ∷ codes "d/b" ∷ []

abbrev after : List Str
after = codes "d/a" ∷ []
