-- ===== src/Extension.antt =====
-- Loading the extension: `LoadInternal` (delta_extension.cpp), and the macros (delta_macros.cpp).
pub mod Loaded
mod Tests
use duckdb_delta.Prelude.{Bool, true, false, List, [], ◌∷◌, ◌++◌, Str, codes, Result, ok, ◌>>=◌}
use duckdb_delta.Types.{LogicalType, boolean}
use duckdb_delta.Values.{Value}
use duckdb_delta.Functions.{
  TableFunctionSet, ScalarFunctionSet, get_table_functions, get_scalar_functions,
}

-- An extension option: its type, its default, and whether it has a callback.
pub record ExtensionOption : Type 0 where
  pub type : LogicalType
  pub default_value : Value
  pub has_callback : Bool

-- A default macro; its text is parsed by DuckDB.
pub record DefaultMacro : Type 0 where
  pub name : Str
  pub parameters : List Str
  pub macro : Str

-- `TableMacroFunction` with what `CreateMacroInfo` adds; a node is what the parser made of the query.
pub record TableMacro (Node : Type 0) : Type 0 where
  pub name : Str
  pub node : Node
  pub parameters : List Str
  pub default_parameters : List (Str × Value)
  pub temporary : Bool
  pub internal_macro : Bool

-- What DuckDB does for an extension, on an instance `I`.
pub record Loader (I Node : Type 0) : Type 0 where
  pub same_key : Str → Str → Bool
  pub auto_load_extension : Str → I → Result I
  pub get_table_function : Str → I → Result TableFunctionSet
  pub register_table_function : TableFunctionSet → I → Result I
  pub register_scalar_function : ScalarFunctionSet → I → Result I
  -- `config.storage_extensions[name] = ...`, `AddExtensionOption` and `RegisterLogType`.
  pub set_storage_extension : Str → I → I
  pub add_extension_option : Str → ExtensionOption → I → I
  pub register_log_type : Str → I → I
  -- `CreateInternalMacroInfo` with the registration; the node of the last statement that `ParseQuery` gives;
  -- the registration of a table macro.
  pub register_default_macro : DefaultMacro → I → Result I
  pub parse_query : Str → Result Node
  pub register_table_macro : TableMacro Node → I → Result I
  -- `LoggerCallback::Initialize`.
  pub initialize_logger : I → I

-- `delta_macros`, whose parameters and defaults end at a null pointer.
abbrev pub delta_macros : List DefaultMacro
delta_macros =
    record {
      name = codes "parse_delta_filter_logline";
      parameters = codes "x" ∷ [];
      macro =
          codes
            "x::STRUCT(path VARCHAR, type VARCHAR, filters_before VARCHAR[], filters_after VARCHAR[], files_before BIGINT, "
          ++ codes "files_after BIGINT)";
    }
    ∷ []

-- Lines with their ends between them.
abbrev joined : List Str → Str
joined [] = []
joined (x ∷ []) = x
joined (x ∷ y ∷ r) = x ++ (10 ∷ joined (y ∷ r))

-- `DELTA_FILTER_PUSHDOWN_MACRO` and `DELTA_FILTER_PUSHDOWN_MACRO_TPCDS`.
unfoldable pub delta_filter_pushdown_macro : Str
delta_filter_pushdown_macro = joined (
    codes ""
    ∷ codes "SELECT"
    ∷ codes "    l1.message as query_string,"
    ∷ codes "    parse_delta_filter_logline(l2.message)['type'] as filter_type,"
    ∷ codes "    parse_delta_filter_logline(l2.message)['files_before'] as files_before,"
    ∷ codes "    parse_delta_filter_logline(l2.message)['files_after'] as files_after,"
    ∷ codes "    parse_delta_filter_logline(l2.message)['filters_before'] as filters_before,"
    ∷ codes "    parse_delta_filter_logline(l2.message)['filters_after'] as filters_after,"
    ∷ codes "    parse_delta_filter_logline(l2.message)['path'] as path"
    ∷ codes "FROM duckdb_logs as l1"
    ∷ codes "JOIN duckdb_logs as l2 ON"
    ∷ codes "    l1.transaction_id = l2.transaction_id"
    ∷ codes "WHERE"
    ∷ codes "    l2.type='delta.FilterPushdown' AND"
    ∷ codes "    l1.type = 'QueryLog'"
    ∷ codes "ORDER BY l1.transaction_id"
    ∷ codes ""
    ∷ [])

unfoldable pub delta_filter_pushdown_macro_tpcds : Str
delta_filter_pushdown_macro_tpcds = joined (
    codes ""
    ∷ codes "SELECT"
    ∷ codes "    query_nr as tpcds_query,"
    ∷ codes "    filter_type,"
    ∷ codes "    files_before,"
    ∷ codes "    files_after,"
    ∷ codes "    filters_before,"
    ∷ codes "    filters_after,"
    ∷ codes "    path"
    ∷ codes "FROM"
    ∷ codes "    delta_filter_pushdown_log()"
    ∷ codes "JOIN"
    ∷ codes "    tpcds_queries() as tpcds_queries on tpcds_queries.\"query\"=query_string"
    ∷ codes ""
    ∷ [])

module _ {I Node : Type 0} (l : Loader I Node) where
  unfoldable pub register_each : {A : Type 0} → (A → I → Result I) → List A → I → Result I
  register_each f [] i = ok i
  register_each f (a ∷ rest) i = f a i >>= register_each f rest

  -- `RegisterTableMacro`.
  unfoldable pub register_query : Str → Str → List Str → List (Str × Value) → I → Result I
  register_query name query params named_params i = do
    node ← l.parse_query query
    l.register_table_macro
        (record {
          name = name;
          node = node;
          parameters = params;
          default_parameters = named_params;
          temporary = true;
          internal_macro = true;
        })
        i

  -- The two extension options.
  unfoldable pub add_options : I → I
  add_options i =
      l.add_extension_option (codes "delta_kernel_logging")
        (record { type = boolean; default_value = Value.boolean false; has_callback = true })
        (l.add_extension_option (codes "delta_scan_explain_files_filtered")
          (record { type = boolean; default_value = Value.boolean true; has_callback = false }) i)

  -- `RegisterMacros`.
  unfoldable pub register_macros : I → Result I
  unfolding register_each register_query delta_filter_pushdown_macro
      delta_filter_pushdown_macro_tpcds
  register_macros i = do
    i1 ← register_each l.register_default_macro delta_macros i
    i2 ← register_query (codes "delta_filter_pushdown_log") delta_filter_pushdown_macro [] [] i1
    register_query (codes "delta_filter_pushdown_log_tpcds") delta_filter_pushdown_macro_tpcds [] []
        i2

  -- The two loops of `LoadInternal`.
  unfoldable pub load_functions : I → Result I
  unfolding get_table_functions get_scalar_functions register_each
  load_functions i = do
    r ← get_table_functions l.same_key l.auto_load_extension l.get_table_function i
    i1 ← register_each l.register_table_function r.0 r.1
    register_each l.register_scalar_function get_scalar_functions i1

  -- `LoadInternal`.
  unfoldable pub load_internal : I → Result I
  unfolding load_functions register_macros add_options
  load_internal i = do
    i1 ← load_functions i
    i2 ← register_macros (add_options (l.set_storage_extension (codes "delta") i1))
    ok (l.initialize_logger (l.register_log_type (codes "DeltaKernel") i2))
