-- ===== src/FileList/State.antt =====
-- The state of a file list, and the kernel and library functions that it calls.
use duckdb_delta.Prelude.{
  ℕ, ◌-◌, ◌^◌, Bool, false, Option, none, List, [], Str, ErrorData, Result, ok, err,
}
use duckdb_delta.Types.{Fields, end}
use duckdb_delta.Values.{Value, Exprs}
use duckdb_delta.Errors.{ExternResult}
use duckdb_delta.Filters.{TableFilterSet}
use duckdb_delta.Columns.{ColumnDefs, no_columns}
use duckdb_delta.Schema.Kernel.{KernelFields}
use duckdb_delta.Expression.Literals.{Library}
use duckdb_delta.Expression.Kernel.{KernelExprs}

-- `DConstants::INVALID_INDEX`.
abbrev pub invalid_index : ℕ
invalid_index = 2 ^ 64 - 1

-- `selection_vector` is `none` where its pointer is null.
pub record DeltaFileMetaData : Type 0 where
  pub delta_snapshot_version : ℕ
  pub file_number : ℕ
  pub cardinality : ℕ
  pub selection_vector : Option (List Bool)
  pub partition_map : List (Str × Value)
  pub transform_expression : Option Exprs

-- One call of `VisitCallback` by the kernel: a file's path, the record count if there are statistics,
-- what `selection_vector_from_dv` answers for it (`none` is a null pointer), and the transform.
pub record ScanFile : Type 0 where
  pub path : Str
  pub stats : Option ℕ
  pub selection_vector : ExternResult (Option (List Bool))
  pub transform : Option KernelExprs

-- One call of `scan_metadata_next`: the files that it visits, and what it returns.
pub record Batch : Type 0 where
  pub files : List ScanFile
  pub have_scan_data : ExternResult Bool

-- Kernel objects are known by their handles.
pub record DeltaMultiFileList : Type 0 where
  pub path : Str
  pub version : ℕ
  pub snapshot : Option ℕ
  pub extern_engine : ℕ
  pub scan : ℕ
  pub scan_data_iterator : List Batch
  pub partitions : List Str
  pub partition_ids : List ℕ
  pub root_path : Str
  pub initialized_snapshot : Bool
  pub initialized_scan : Bool
  pub files_exhausted : Bool
  pub metadata : List DeltaFileMetaData
  pub resolved_files : List Str
  pub table_filters : TableFilterSet
  -- `names` and `types`.
  pub columns : Fields
  pub have_bound : Bool
  pub lazy_loaded_schema : ColumnDefs

-- The Delta kernel, and what the list takes from DuckDB.
pub record Kernel : Type 0 where
  -- `CreateBuilder` and `builder_build`.
  pub create_engine : Str → Result ℕ
  -- `ffi::snapshot`, `ffi::version` and the schema of a snapshot.
  pub open_snapshot : Str → ℕ → ExternResult ℕ
  pub snapshot_version : ℕ → ℕ
  pub snapshot_schema : ℕ → KernelFields
  -- `ffi::scan` with the predicate visitor, which may record an error.
  pub open_scan : ℕ → ℕ → Fields → TableFilterSet → ExternResult ℕ × Option ErrorData
  pub table_root : ℕ → Str
  pub iter_init : ℕ → ℕ → ExternResult (List Batch)
  pub partition_columns : ℕ → List Str
  -- `VisitSnapshotGlobalReadSchema`: the physical and the logical schema of a scan.
  pub physical_schema : ℕ → Result Fields
  pub logical_schema : ℕ → Result Fields
  pub columns_from_names_and_types : Fields → ColumnDefs
  pub library : Library
  -- What the uninitialised variable of `url_decode` holds.
  pub garbage : ℕ

-- A method that may throw: what was written before an exception stays written.
abbrev pub Exec {ℓ} : Type ℓ → Type ℓ
Exec A = DeltaMultiFileList → Result A × DeltaMultiFileList

abbrev pub continue {ℓ κ} :
    {A : Type ℓ} {B : Type κ}
    → Result A
    → (A → DeltaMultiFileList → Result B × DeltaMultiFileList)
    → DeltaMultiFileList
    → Result B × DeltaMultiFileList
continue (ok a) f s = f a s
continue (err e) f s = (err e, s)

infixl 5 ◌>>=◌ ◌>>◌
abbrev pub ◌>>=◌ : {A B : Type 0} → Exec A → (A → Exec B) → Exec B
◌>>=◌ m f s = let (r, s') = m s in continue r f s'

abbrev pub ◌>>◌ : {A B : Type 0} → Exec A → Exec B → Exec B
m >> k = m >>= λ _. k

abbrev pub return : {A : Type 0} → A → Exec A
return a s = (ok a, s)

abbrev pub lift : {A : Type 0} → Result A → Exec A
lift r s = (r, s)

abbrev pub modify : (DeltaMultiFileList → DeltaMultiFileList) → Exec (Unit {0})
modify f s = (ok tt, f s)

abbrev pub get_state : Exec DeltaMultiFileList
get_state s = (ok s, s)

-- `DeltaMultiFileList(context, path)`; `path` is the result of `ToDeltaPath`.
unfoldable pub create : Str → DeltaMultiFileList
create path = record {
  path = path;
  version = 0;
  snapshot = none;
  extern_engine = 0;
  scan = 0;
  scan_data_iterator = [];
  partitions = [];
  partition_ids = [];
  root_path = [];
  initialized_snapshot = false;
  initialized_scan = false;
  files_exhausted = false;
  metadata = [];
  resolved_files = [];
  table_filters = [];
  columns = end;
  have_bound = false;
  lazy_loaded_schema = no_columns;
}
