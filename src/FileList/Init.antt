-- ===== src/FileList/Init.antt =====
-- `InitializeSnapshot`, `InitializeScan`, the two guards before them, and `Bind`.
use duckdb_delta.Prelude.{
  ℕ, ◌+◌, ◌++◌, ◌==◌, true, false, Option, none, some, List, [], ◌∷◌, Str, codes, str_eq, ErrorData,
  Result, ok, throw, io, internal, length, if◌then◌else◌,
}
use duckdb_delta.Types.{Fields, end, field, append}
use duckdb_delta.Errors.{try_unpack_result}
use duckdb_delta.Columns.{ColumnDefs, construct_from_schemas}
use duckdb_delta.Schema.Kernel.{visit_snapshot_schema}
use duckdb_delta.FileList.State.{
  DeltaMultiFileList, Kernel, Exec, ◌>>=◌, ◌>>◌, return, lift, modify, get_state,
}

-- `snapshot->GetLockingRef()`; a null pointer is a fault.
abbrev pub the_snapshot : Option ℕ → Result ℕ
the_snapshot none = throw internal (codes "null snapshot")
the_snapshot (some h) = ok h

unfoldable pub open_snapshot : Kernel → DeltaMultiFileList → Result ℕ
unfolding try_unpack_result
open_snapshot k s = elim s.snapshot [
  | some h ↦ ok h
  | none ↦ try_unpack_result (k.open_snapshot s.path s.extern_engine)
]

unfoldable pub initialize_snapshot : Kernel → Exec (Unit {0})
unfolding open_snapshot
initialize_snapshot k = do
  s ← get_state
  engine ← lift (k.create_engine s.path)
  modify (λ t. record t { extern_engine = engine })
  t ← get_state
  h ← lift (open_snapshot k t)
  modify (λ u. record u {
    snapshot = some h;
    version = k.snapshot_version h;
    initialized_snapshot = true;
  })

unfoldable pub ensure_snapshot_initialized : Kernel → Exec (Unit {0})
unfolding initialize_snapshot
ensure_snapshot_initialized k s = elim s.initialized_snapshot [
  | true ↦ (ok tt, s)
  | false ↦ initialize_snapshot k s
]

-- The first column of a name, counted from `i`.
abbrev index_of_column : Str → ℕ → Fields → Option ℕ
index_of_column p i end = none
index_of_column p i (field n t fs) = if str_eq p n then some i else index_of_column p (i + 1) fs

abbrev push_id : Option ℕ → List ℕ → List ℕ
push_id none ids = ids
push_id (some i) ids = i ∷ ids

-- The column numbers of the partitions that are columns.
unfoldable pub find_partition_ids : List Str → Fields → List ℕ
find_partition_ids [] columns = []
find_partition_ids (p ∷ ps) columns =
    push_id (index_of_column p 0 columns) (find_partition_ids ps columns)

abbrev pub check_scan : Str → Option ErrorData → Result (Unit {0})
check_scan path none = ok tt
check_scan path (some e) = throw io (
    codes "Failed to initialize Scan for Delta table at '"
    ++ (path ++ (codes "'. Original error: '" ++ (e.message ++ codes "'"))))

-- `partition_ids` is appended to and not cleared. With no partition columns nothing is written.
unfoldable pub load_partitions : List Str → Exec (Unit {0})
unfolding find_partition_ids
load_partitions [] = return tt
load_partitions (p ∷ ps) = do
  modify (λ s. record s {
    partitions = p ∷ ps;
    partition_ids = s.partition_ids ++ find_partition_ids (p ∷ ps) s.columns;
  })
  s ← get_state
  if length s.partitions == length s.partition_ids
      then return tt
      else lift (throw io (codes "Failed to map partitions to columns"))

-- The scan and its iterator; the snapshot's handle is returned.
unfoldable pub open_scan : Kernel → Exec ℕ
unfolding try_unpack_result
open_scan k = do
  s ← get_state
  h ← lift (the_snapshot s.snapshot)
  let opened = k.open_scan h s.extern_engine s.columns s.table_filters
  scan ← lift (try_unpack_result opened.0)
  modify (λ t. record t { scan = scan })
  lift (check_scan s.path opened.1)
  modify (λ t. record t { root_path = k.table_root scan })
  batches ← lift (try_unpack_result (k.iter_init s.extern_engine scan))
  modify (λ t. record t { scan_data_iterator = batches })
  return h

unfoldable pub read_columns : Kernel → DeltaMultiFileList → Result ColumnDefs
unfolding construct_from_schemas
read_columns k s =
    construct_from_schemas k.columns_from_names_and_types s.columns s.partitions
      (k.physical_schema s.scan) (k.logical_schema s.scan)

abbrev pub set_columns : ColumnDefs → DeltaMultiFileList → DeltaMultiFileList
set_columns defs s = record s { lazy_loaded_schema = defs; initialized_scan = true }

unfoldable pub load_schema : Kernel → Exec (Unit {0})
unfolding read_columns
load_schema k = do s ← get_state; defs ← lift (read_columns k s); modify (set_columns defs)

unfoldable pub initialize_scan : Kernel → Exec (Unit {0})
unfolding open_scan load_partitions load_schema
initialize_scan k =
    open_scan k >>= λ h. load_partitions (k.partition_columns h) >>= λ _. load_schema k

unfoldable pub ensure_scan_initialized : Kernel → Exec (Unit {0})
unfolding ensure_snapshot_initialized initialize_scan
ensure_scan_initialized k = do
  ensure_snapshot_initialized k
  s ← get_state
  if s.initialized_scan then return tt else initialize_scan k

-- The schema through the visitor; undefined behaviour is excluded by the theorem on the visit.
abbrev read_schema : Option (Result Fields) → Result Fields
read_schema none = throw internal (codes "undefined")
read_schema (some r) = r

-- `Bind(return_types, names)`: the two vectors are passed in and returned, as one list of columns.
unfoldable pub bind : Kernel → Fields → Exec Fields
unfolding ensure_snapshot_initialized visit_snapshot_schema append
bind k columns = do
  s ← get_state
  if s.have_bound then return s.columns else do
    ensure_snapshot_initialized k
    t ← get_state
    h ← lift (the_snapshot t.snapshot)
    schema ← lift (read_schema (visit_snapshot_schema (k.snapshot_schema h)))
    let bound = append columns schema
    modify (λ u. record u { have_bound = true; columns = bound })
    return bound
