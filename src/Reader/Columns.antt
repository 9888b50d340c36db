-- ===== src/Reader/Columns.antt =====
-- The columns that a file is read with: `InitializeReader`.
use duckdb_delta.Prelude.{ℕ, zero, suc, ◌==◌, Bool, Option, List, Result, if◌then◌else◌}
use duckdb_delta.Columns.{ColumnDefs, no_columns, then_column}
use duckdb_delta.FileList.State.{Kernel, Exec, ◌>>=◌, ◌>>◌, return, lift, get_state}
use duckdb_delta.FileList.Init.{ensure_scan_initialized}
use duckdb_delta.Reader.Host.{Host, FileReader, ReaderData}
use duckdb_delta.Reader.Constants.{finalize_bind}

unfoldable pub size : ColumnDefs → ℕ
size no_columns = 0
size (then_column c cs) = suc (size cs)

-- The global columns from place `n` on, behind the columns of the scan.
abbrev pub drop_columns : ℕ → ColumnDefs → ColumnDefs
drop_columns zero cs = cs
drop_columns (suc n) no_columns = no_columns
drop_columns (suc n) (then_column c cs) = drop_columns n cs

abbrev pub append_columns : ColumnDefs → ColumnDefs → ColumnDefs
append_columns no_columns ds = ds
append_columns (then_column c cs) ds = then_column c (append_columns cs ds)

-- `global_columns_to_use`.
unfoldable pub columns_to_use : ColumnDefs → ColumnDefs → ColumnDefs
unfolding size
columns_to_use scan_columns global_columns =
    if size scan_columns == size global_columns
    then scan_columns
    else append_columns scan_columns (drop_columns (size scan_columns) global_columns)

-- `GetLazyLoadedGlobalColumns`.
unfoldable pub get_lazy_loaded_global_columns : Kernel → Exec ColumnDefs
unfolding ensure_scan_initialized
get_lazy_loaded_global_columns k = do
  ensure_scan_initialized k
  s ← get_state
  return s.lazy_loaded_schema

-- `InitializeReader`; `create_mapping` is the base class's `CreateMapping`.
unfoldable pub initialize_reader :
    {A : Type 0}
    → Host
    → Kernel
    → (ReaderData → ColumnDefs → List ℕ → Result A)
    → Bool
    → Option ℕ
    → FileReader
    → ColumnDefs
    → List ℕ
    → Exec A
unfolding get_lazy_loaded_global_columns columns_to_use finalize_bind
initialize_reader host k create_mapping union_by_name filename_idx reader global_columns ids = do
  scan_columns ← get_lazy_loaded_global_columns k
  s ← get_state
  d ← lift (
      finalize_bind host union_by_name filename_idx reader
        (columns_to_use scan_columns global_columns) ids s)
  lift (create_mapping d (columns_to_use scan_columns global_columns) ids)
