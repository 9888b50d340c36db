-- ===== src/Storage/AttachTests.antt =====
-- A table that is attached with options, and the theorems there.
use mathlib.Core.Path.{subst}
use mathlib.Core.Option.{some_inj}
use duckdb_delta.Prelude.{
  ◌≡◌, refl, true, false, none, some, [], ◌∷◌, ◌++◌, codes, Str, Bool, ok, Result, throw, other,
  invalid_input, arith,
}
use duckdb_delta.Types.{end}
use duckdb_delta.Values.{Value, boolean, string}
use duckdb_delta.Paths.{FileSystem}
use duckdb_delta.Fixtures.{kernel}
use duckdb_delta.FileList.State.{DeltaMultiFileList, create}
use duckdb_delta.Pushdown.{from_string, constant_only}
use duckdb_delta.Reader.Host.{Host, MultiFileOptions}
use duckdb_delta.Reader.Options.{find_option, pushes_partition_info}
use duckdb_delta.Storage.{
  ClientContext, Catalog, TableEntry, table_type, create_transaction, lookup_entry,
}
use duckdb_delta.Storage.Attach.{
  attach, create_catalog, get_scan_function, create_instance, create_file_list,
  get_delta_filter_pushdown_mode,
}
use duckdb_delta.Storage.Attached.{attach-mode, last_filters}
use duckdb_delta.Storage.Size.{get_database_size, attach-get_database_size}
use duckdb_delta.Storage.Scanned.{parse_each, get_scan_function-settings}
use duckdb_delta.Storage.Version.{get_catalog_version, get_catalog_version-lookup_entry}

abbrev to_bool : Value → Result Bool
to_bool (boolean b) = ok b
to_bool _ = throw other []

abbrev to_str : Value → Result Str
to_str (string s) = ok s
to_str _ = throw other []

abbrev host : Host
host = record {
  filename_column = 9223372036854775808;
  file_index_column = 9223372036854775809;
  is_virtual_column = λ c. false;
  default_cast_as = λ t v. ok v;
  get_bool = to_bool;
  get_string = to_str;
  bind_options = λ b. ok b;
  parse_option = λ key v o. ok (false, o);
}

abbrev attached : Catalog
attached = record {
  name = codes "t";
  path = codes "d/";
  use_cache = true;
  pushdown_partition_info = true;
  filter_pushdown_mode = constant_only;
  default_table = codes "t";
  default_schema = [];
  cached_table = none;
}

attaches :
    attach host (codes "t") (codes "d/") (
      (codes "PIN_SNAPSHOT", boolean true)
      ∷ (codes "pushdown_filters", string (codes "none"))
      ∷ (codes "Pushdown_Filters", string (codes "CONSTANT_only"))
      ∷ [])
    ≡ ok attached
unfolding attach create_catalog from_string
attaches = refl

attach-mode_example :
    (s : Str) × (host.get_string (string (codes "CONSTANT_only")) ≡ ok s)
    × (from_string s ≡ ok constant_only)
unfolding last_filters
attach-mode_example =
    attach-mode host (codes "t") (codes "d/")
      ((codes "PIN_SNAPSHOT", boolean true)
        ∷ (codes "pushdown_filters", string (codes "none"))
        ∷ (codes "Pushdown_Filters", string (codes "CONSTANT_only"))
        ∷ [])
      attached attaches

abbrev file_system : FileSystem
file_system = record { working_directory = codes "/"; join_path = λ a b. a ++ b }

abbrev open_list : DeltaMultiFileList
open_list = record (create (codes "d/")) {
  extern_engine = 1;
  snapshot = some 2;
  version = 5;
  initialized_snapshot = true;
  have_bound = true;
}

abbrev entry : TableEntry
entry = record { table = codes "t"; columns = end; snapshot = open_list }

abbrev no_options : MultiFileOptions
no_options = record {
  auto_detect_hive_partitioning = false;
  hive_partitioning = false;
  union_by_name = false;
  custom_options = [];
}

get_scan_function-settings_example :
    (create_file_list file_system
        (create_instance (some (get_scan_function attached entry)))
        (get_scan_function attached entry).inputs
      ≡ ok open_list)
    × ((p : MultiFileOptions) × ((parse_each host
              (get_scan_function attached entry).parameters
              no_options
            ≡ ok p)
          × ((get_delta_filter_pushdown_mode host p ≡ ok constant_only)
              × (pushes_partition_info host
                    (find_option (codes "pushdown_partition_info") p.custom_options)
                  ≡ ok true))))
get_scan_function-settings_example =
    get_scan_function-settings host file_system attached entry no_options (λ b. refl) (λ s. refl)

abbrev context : ClientContext
context = record { kernel = kernel; file_system = file_system }

abbrev cached : Catalog
cached = record attached { cached_table = some entry }

finds :
    lookup_entry context table_type (codes "t") attached create_transaction
    ≡ (ok (some entry), (cached, create_transaction))
unfolding lookup_entry create_transaction create
finds = refl

get_catalog_version-lookup_entry_example :
    get_catalog_version kernel cached create_transaction
    ≡ (ok (some 5), (cached, create_transaction))
unfolding create
get_catalog_version-lookup_entry_example =
    get_catalog_version-lookup_entry context kernel table_type (codes "t") attached cached
      create_transaction create_transaction entry finds refl
      (λ e h. subst (λ x. x.snapshot.initialized_snapshot ≡ true) (some_inj.0 h) refl)
      (λ h. absurd (omega (arith, h)))

attach-get_database_size_example :
    get_database_size {D = Unit {0}} tt attached
    ≡ throw invalid_input (
        codes
          "Attempting to fetch the database size - but no database was provided in the connection string")
attach-get_database_size_example =
    attach-get_database_size tt host (codes "t") (codes "d/")
      ((codes "PIN_SNAPSHOT", boolean true)
        ∷ (codes "pushdown_filters", string (codes "none"))
        ∷ (codes "Pushdown_Filters", string (codes "CONSTANT_only"))
        ∷ [])
      attached attaches
