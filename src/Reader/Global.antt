-- ===== src/Reader/Global.antt =====
-- `Bind`; what all threads of a scan share: `InitializeGlobalState`; and `FinalizeChunk`, which leaves the chunk to
-- the base class.
use duckdb_delta.Prelude.{
  ℕ, zero, suc, Bool, true, Option, none, some, List, [], ◌∷◌, Str, codes, Result, ok, throw,
  internal, ◌>>=◌, if◌then◌else◌,
}
use duckdb_delta.Types.{LogicalType, Fields}
use duckdb_delta.Columns.{ColumnDefs, no_columns, then_column, column_def}
use duckdb_delta.FileList.State.{DeltaMultiFileList, Kernel, Exec, return, ◌>>=◌ as then_exec}
use duckdb_delta.FileList.Init.{bind}
use duckdb_delta.Reader.Host.{Host, ci_equals}

-- `DeltaMultiFileReaderGlobalState`.
pub record DeltaMultiFileReaderGlobalState : Type 0 where
  pub extra_columns : List LogicalType
  pub file_list : DeltaMultiFileList

abbrev column_name : ColumnDefs → ℕ → Option Str
column_name no_columns i = none
column_name (then_column (column_def n t d id children) cs) zero = some n
column_name (then_column c cs) (suc i) = column_name cs i

-- `insert` in a case-insensitive map keeps what is there.
abbrev insert_column : Str → ℕ → List (Str × ℕ) → List (Str × ℕ)
insert_column n i [] = (n, i) ∷ []
insert_column n i ((m, j) ∷ l) =
    let rest = insert_column n i l in if ci_equals m n then (m, j) ∷ l else (m, j) ∷ rest

abbrev selected : Option Str → ℕ → List (Str × ℕ) → Result (List (Str × ℕ))
selected none i l = throw internal (codes "Attempted to access index outside a vector")
selected (some n) i l = ok (insert_column n i l)

-- The loop over the columns that are read, from place `i` on.
unfoldable pub select_columns :
    Host → ColumnDefs → ℕ → List ℕ → List (Str × ℕ) → Result (List (Str × ℕ))
select_columns host global_columns i [] l = ok l
select_columns host global_columns i (global_id ∷ ids) l = do
  next ←
      (if host.is_virtual_column global_id
        then ok l
        else selected (column_name global_columns global_id) i l)
  select_columns host global_columns (suc i) ids next

-- `Bind`: the list's own, which is passed the names and types so far; it always succeeds.
unfoldable pub bind_reader : Kernel → Fields → Exec (Bool × Fields)
unfolding bind
bind_reader k columns = then_exec (bind k columns) (λ fs. return (true, fs))

-- `InitializeGlobalState`: the columns that are selected are not used.
unfoldable pub initialize_global_state :
    Host → ColumnDefs → List ℕ → DeltaMultiFileList → Result DeltaMultiFileReaderGlobalState
unfolding select_columns
initialize_global_state host global_columns ids file_list = do
  columns ← select_columns host global_columns 0 ids []
  ok (record { extra_columns = []; file_list = file_list })

-- `FinalizeChunk`: the base class's.
unfoldable pub finalize_chunk :
    {C : Type 0}
    → (DeltaMultiFileReaderGlobalState → C → C)
    → DeltaMultiFileReaderGlobalState
    → C
    → C
finalize_chunk base global_state chunk = base global_state chunk
