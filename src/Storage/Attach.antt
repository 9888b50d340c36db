-- ===== src/Storage/Attach.antt =====
-- Attaching a table (delta_extension.cpp), and the scan of its entry: `GetScanFunction`
-- (storage/delta_table_entry.cpp), and `CreateInstance` and `CreateFileList` of the reader
-- (functions/delta_scan).
use duckdb_delta.Prelude.{
  Bool, true, false, Option, none, some, List, [], ◌∷◌, Str, codes, str_eq, lower, Result, ok,
  throw, binder, internal, ◌>>=◌, if◌then◌else◌,
}
use duckdb_delta.Values.{Value, boolean, string}
use duckdb_delta.Paths.{FileSystem, to_delta_path}
use duckdb_delta.FileList.State.{DeltaMultiFileList, create}
use duckdb_delta.Pushdown.{
  DeltaFilterPushdownMode, all_filters, from_string, to_string, get_pushdown_mode,
}
use duckdb_delta.Reader.Host.{Host, MultiFileOptions}
use duckdb_delta.Reader.Options.{find_option}
use duckdb_delta.Storage.{Catalog, TableEntry}

-- `DeltaCatalog::DeltaCatalog`; the name is that of the attached database.
unfoldable pub create_catalog : Str → Str → Catalog
create_catalog name path = record {
  name = name;
  path = path;
  use_cache = false;
  pushdown_partition_info = true;
  filter_pushdown_mode = all_filters;
  default_table = [];
  default_schema = [];
  cached_table = none;
}

abbrev pub pin_snapshot : Host → Value → Catalog → Result Catalog
pin_snapshot host v c = host.get_bool v >>= λ (b : Bool). ok (record c { use_cache = b })

abbrev pub push_partition_info : Host → Value → Catalog → Result Catalog
push_partition_info host v c =
    host.get_bool v >>= λ (b : Bool). ok (record c { pushdown_partition_info = b })

abbrev pub push_filters : Host → Value → Catalog → Result Catalog
push_filters host v c = do
  str ← host.get_string v
  mode ← from_string str
  ok (record c { filter_pushdown_mode = mode })

abbrev pub when : Bool → (Catalog → Result Catalog) → Catalog → Result Catalog
when b f c = if b then f c else ok c

-- One round of the loop over the options of `ATTACH`; any other option is passed over.
unfoldable pub attach_option : Host → Str → Value → Catalog → Result Catalog
attach_option host key v c = do
  c1 ← when (str_eq (lower key) (codes "pin_snapshot")) (pin_snapshot host v) c
  c2 ← when (str_eq (lower key) (codes "pushdown_partition_info")) (push_partition_info host v) c1
  when (str_eq (lower key) (codes "pushdown_filters")) (push_filters host v) c2

unfoldable pub attach_options : Host → List (Str × Value) → Catalog → Result Catalog
unfolding attach_option
attach_options host [] c = ok c
attach_options host ((key, v) ∷ options) c =
    attach_option host key v c >>= λ (d : Catalog). attach_options host options d

-- `DeltaCatalogAttach`.
unfoldable pub attach : Host → Str → Str → List (Str × Value) → Result Catalog
unfolding attach_options create_catalog
attach host name path options = do
  c ← attach_options host options (create_catalog name path)
  ok (record c { default_table = name })

-- The table function that a scan of an entry gets: its function info, inputs and parameters.
pub record ScanFunction : Type 0 where
  pub snapshot : DeltaMultiFileList
  pub table_name : Str
  pub inputs : List Str
  pub parameters : List (Str × Value)

-- `GetScanFunction`, as far as the call of the function's own bind.
unfoldable pub get_scan_function : Catalog → TableEntry → ScanFunction
unfolding to_string
get_scan_function c e = record {
  snapshot = e.snapshot;
  table_name = c.name;
  inputs = c.path ∷ [];
  parameters =
      (codes "pushdown_partition_info", boolean c.pushdown_partition_info)
      ∷ (codes "pushdown_filters", string (to_string c.filter_pushdown_mode))
      ∷ [];
}

abbrev snapshot_of : Option ScanFunction → Option DeltaMultiFileList
snapshot_of none = none
snapshot_of (some f) = some f.snapshot

-- `CreateInstance`: the reader's `snapshot`.
unfoldable pub create_instance : Option ScanFunction → Option DeltaMultiFileList
create_instance f = snapshot_of f

abbrev list_at : Option Str → Result DeltaMultiFileList
list_at none = throw internal (codes "empty path")
list_at (some path) = ok (create path)

abbrev or_new : FileSystem → Str → Option DeltaMultiFileList → Result DeltaMultiFileList
or_new fs path none = list_at (to_delta_path fs path)
or_new fs path (some s) = ok s

-- `CreateFileList`: the injected snapshot, whatever the path.
unfoldable pub create_file_list :
    FileSystem → Option DeltaMultiFileList → List Str → Result DeltaMultiFileList
unfolding to_delta_path create
create_file_list fs snapshot (path ∷ []) = or_new fs path snapshot
create_file_list fs snapshot [] =
    throw binder (codes "'delta_scan' only supports single path as input")
create_file_list fs snapshot (p ∷ q ∷ paths) =
    throw binder (codes "'delta_scan' only supports single path as input")

abbrev mode_of : Host → Option Value → Result DeltaFilterPushdownMode
mode_of host none = get_pushdown_mode none
mode_of host (some v) = host.get_string v >>= λ (str : Str). get_pushdown_mode (some str)

-- `GetDeltaFilterPushdownMode` on the options of a scan.
unfoldable pub get_delta_filter_pushdown_mode :
    Host → MultiFileOptions → Result DeltaFilterPushdownMode
unfolding find_option get_pushdown_mode
get_delta_filter_pushdown_mode host o =
    mode_of host (find_option (codes "pushdown_filters") o.custom_options)
