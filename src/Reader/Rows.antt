-- ===== src/Reader/Rows.antt =====
-- The rows of a file that the reader lets through, against the deletion vector that the kernel reported
-- of this file.
use mathlib.Core.Option.{some_inj}
use mathlib.Core.Bool.{true≢false}
use duckdb_delta.Prelude.{
  ℕ, ◌+◌, ◌^◌, ◌<◌, ◌≤◌, ◌≡◌, sym, ap, ◌∙◌, inl, inr, Bool, false, Option, some, List, [], Str,
  is_empty, length, take, get_elem?, ok, ok_inj, bind_ok,
}
use duckdb_delta.Errors.{ExternResult, ok_result, try_unpack_result}
use duckdb_delta.Columns.{ColumnDefs}
use duckdb_delta.DeleteFilter.{filter}
use duckdb_delta.DeleteFilter.Selection.{kept, filter-kept}
use duckdb_delta.FileList.State.{DeltaFileMetaData, ScanFile, DeltaMultiFileList, Kernel}
use duckdb_delta.FileList.Callback.{is_unknown_storage_format}
use duckdb_delta.FileList.Expand.{get_file_internal, get_metadata}
use duckdb_delta.FileList.Described.{HasVector}
use duckdb_delta.FileList.Attributed.{IsReading, get_file_internal-IsAttributed}
use duckdb_delta.Reader.Host.{Host, FileReader, ReaderData}
use duckdb_delta.Reader.Constants.{
  base_constant, partition_constants, each_column, or_keep, finalize_bind,
}

-- An answer that has a vector is no error that is passed over.
HasVector-some :
    (r : ExternResult (Option (List Bool))) (v : List Bool) (w : Option (List Bool))
    → r ≡ ok_result (some v)
    → HasVector r w
    → w ≡ some v
unfolding is_unknown_storage_format try_unpack_result
HasVector-some r v w e (inl (b, n)) = absurd (true≢false (sym b ∙ ap is_unknown_storage_format e))
HasVector-some r v w e (inr (b, u)) = sym (ok_inj (some v) w (ap try_unpack_result (sym e) ∙ u))

-- The deletion filter is that of the file's metadata, if there is one.
finalize_bind-deletion_filter :
    (host : Host) (u : Bool) (filename_idx : Option ℕ) (reader : FileReader) (cols : ColumnDefs)
    (ids : List ℕ) (t : DeltaMultiFileList) (d : ReaderData) (m : DeltaFileMetaData)
    → finalize_bind host u filename_idx reader cols ids t ≡ ok d
    → get_metadata reader.file_list_idx t ≡ ok m
    → d.deletion_filter ≡ or_keep m.selection_vector reader.deletion_filter
unfolding finalize_bind
finalize_bind-deletion_filter host u f reader cols ids t d m h hm =
    let (c, (r, g)) = bind_ok (each_column (base_constant host u f reader cols) 0 ids []) _ d h in
    let (n, (r3, g3)) =
      bind_ok (partition_constants host cols m.partition_map ids c) _ d (rw hm at g) in
    sym (ap (λ (x : ReaderData). x.deletion_filter) (ok_inj _ d g3))

-- `GetFileInternal` has returned the `i`-th file of a list that reads what the kernel reports, the kernel
-- reported a deletion vector of this file, and `FinalizeBind` of its reader succeeds. Then the reader's
-- deletion filter is this vector. For a chunk that fits the selection vector and whose row numbers fit 64
-- bits, `Filter` with it returns how many rows of the chunk are not deleted, and the selection begins with
-- their positions, in order, and keeps its length: no write is out of bounds. A row past the end of the
-- deletion vector is not deleted.
pub finalize_bind-kept :
    (k : Kernel) (total : List ScanFile) (s t : DeltaMultiFileList) (p : Str) (file : ScanFile)
    (dv : List Bool) (host : Host) (union_by_name : Bool) (filename_idx : Option ℕ)
    (reader : FileReader) (cols : ColumnDefs) (ids : List ℕ) (d : ReaderData) (start count : ℕ)
    (sel : List ℕ)
    → IsReading k s total s
    → get_file_internal k reader.file_list_idx s ≡ (ok p, t)
    → is_empty p ≡ false
    → get_elem? total reader.file_list_idx ≡ some file
    → file.selection_vector ≡ ok_result (some dv)
    → finalize_bind host union_by_name filename_idx reader cols ids t ≡ ok d
    → count ≤ length sel
    → start + count < 2 ^ 64
    → (d.deletion_filter ≡ some dv)
      × (let (selected, result) = filter dv start count sel in
          (selected ≡ length (kept dv start 0 count))
          × ((take selected result ≡ kept dv start 0 count) × (length result ≡ length sel)))
finalize_bind-kept k total s t p file dv host u f reader cols ids d start count sel h e x g v b c
      w =
    let (read, (found, (q, (r, (m, (o, described)))))) =
      get_file_internal-IsAttributed k total reader.file_list_idx s t p h e x in
    let same : found ≡ file = some_inj.0 (sym q ∙ g) in
    let vector =
      HasVector-some found.selection_vector dv m.selection_vector
        (ap (λ (a : ScanFile). a.selection_vector) same ∙ v) described.vector in
    (
      finalize_bind-deletion_filter host u f reader cols ids t d m b o
          ∙ ap (λ a. or_keep a reader.deletion_filter) vector,
      filter-kept dv start count sel c w,
    )
