-- ===== src/FileList/Expand.antt =====
-- `GetFileInternal` and the functions that expand the list with it.
use duckdb_delta.Prelude.{
  ℕ, zero, suc, ◌+◌, ◌%◌, ◌^◌, ◌++◌, ◌==◌, ltb, Bool, true, false, Option, none, some, List, [],
  ◌∷◌, Str, codes, is_empty, ErrorData, Result, ok, err, throw, io, internal, length, get_elem?,
  if◌then◌else◌,
}
use duckdb_delta.Errors.{try_unpack_result}
use duckdb_delta.FileList.State.{
  invalid_index, DeltaFileMetaData, Batch, DeltaMultiFileList, Kernel, Exec, ◌>>=◌, ◌>>◌, return,
  get_state,
}
use duckdb_delta.FileList.Callback.{visit_files}
use duckdb_delta.FileList.Init.{ensure_snapshot_initialized, ensure_scan_initialized}

-- `resolved_files[i]`; past the end, `OpenFileInfo()`, whose path is empty.
abbrev pub file_at : DeltaMultiFileList → ℕ → Str
file_at s i = elim (get_elem? s.resolved_files i) [ none ↦ [] | some f ↦ f ]

-- The kernel has indicated that there is no more data.
abbrev exhaust : DeltaMultiFileList → Result Str × DeltaMultiFileList
exhaust s = (ok [], record s { files_exhausted = true })

-- What follows a call of `scan_metadata_next`: `again` is the next round of the loop.
unfoldable pub after_batch :
    Result Bool
    → Option ErrorData
    → (DeltaMultiFileList → Result Str × DeltaMultiFileList)
    → DeltaMultiFileList
    → Result Str × DeltaMultiFileList
after_batch r (some e) again s = (err e, s)
after_batch (err e) none again s =
    (throw io (codes "Failed to unpack scan data from kernel: " ++ e.message), s)
after_batch (ok false) none again s = exhaust s
after_batch (ok true) none again s = again s

-- The loop of `GetFileInternal`, over the batches that the kernel's iterator has left. At its end the
-- iterator says that there is no more data.
unfoldable pub expand_until :
    Kernel → ℕ → List Batch → DeltaMultiFileList → Result Str × DeltaMultiFileList
unfolding visit_files after_batch try_unpack_result
expand_until k i [] s = elim (ltb i (length s.resolved_files)) [
  | true ↦ (ok (file_at s i), s)
  | false ↦ exhaust s
]
expand_until k i (b ∷ bs) s = elim (ltb i (length s.resolved_files)) [
  | true ↦ (ok (file_at s i), s)
  | false ↦
      let (s', e) = visit_files k b.files none (record s { scan_data_iterator = bs }) in
      after_batch (try_unpack_result b.have_scan_data) e (expand_until k i bs) s'
]

-- `GetFileInternal` after its first line.
unfoldable pub get_file_expanded : Kernel → ℕ → DeltaMultiFileList → Result Str × DeltaMultiFileList
unfolding expand_until
get_file_expanded k i s =
    if ltb i (length s.resolved_files)
    then (ok (file_at s i), s)
    else if s.files_exhausted
    then (ok [], s)
    else expand_until k i s.scan_data_iterator s

unfoldable pub get_file_internal : Kernel → ℕ → Exec Str
unfolding get_file_expanded ensure_scan_initialized
get_file_internal k i = ensure_scan_initialized k >>= λ _. get_file_expanded k i

-- `GetFile`, which holds the lock.
unfoldable pub get_file : Kernel → ℕ → Exec Str
unfolding get_file_internal
get_file k i = get_file_internal k i

-- `GetExpandResult`: always several files, whatever the list holds.
pub data FileExpandResult : Type 0 where
  no_files single_file multiple_files : FileExpandResult

unfoldable pub get_expand_result : DeltaMultiFileList → FileExpandResult
get_expand_result s = multiple_files

-- `GetPath`.
unfoldable pub get_path : DeltaMultiFileList → Str
get_path s = s.path

-- `while (!GetFileInternal(i).path.empty()) i++`; `none`: the fuel ran out.
unfoldable pub get_all_from :
    Kernel → ℕ → ℕ → DeltaMultiFileList → Option (Result (Unit {0}) × DeltaMultiFileList)
unfolding get_file_internal
get_all_from k zero i s = none
get_all_from k (suc fuel) i s =
    let (r, s') = get_file_internal k i s in
    elim r [
      | err e ↦ some (err e, s')
      | ok path ↦ elim (is_empty path) [
        | true ↦ some (ok tt, s')
        | false ↦ get_all_from k fuel (i + 1) s'
      ]
    ]

abbrev pub map_ok : {A B : Type 0} → (A → B) → Result A → Result B
map_ok f (ok a) = ok (f a)
map_ok f (err e) = err e

abbrev pub finish_all :
    {A : Type 0}
    → (DeltaMultiFileList → A)
    → Option (Result (Unit {0}) × DeltaMultiFileList)
    → Option (Result A × DeltaMultiFileList)
finish_all f none = none
finish_all f (some (r, s)) = some (map_ok (λ _. f s) r, s)

-- `GetAllFiles`.
unfoldable pub get_all_files :
    Kernel → ℕ → DeltaMultiFileList → Option (Result (List Str) × DeltaMultiFileList)
unfolding get_all_from
get_all_files k fuel s =
    finish_all (λ t. t.resolved_files) (get_all_from k fuel (length s.resolved_files) s)

-- `GetTotalFileCountInternal`, and `GetTotalFileCount`, which holds the lock.
unfoldable pub get_total_file_count :
    Kernel → ℕ → DeltaMultiFileList → Option (Result ℕ × DeltaMultiFileList)
unfolding get_all_from
get_total_file_count k fuel s =
    finish_all (λ t. length t.resolved_files) (get_all_from k fuel (length s.resolved_files) s)

-- The sum of the cardinalities that are known, modulo 2^64, and whether any is.
unfoldable pub sum_cardinality : ℕ → Bool → List DeltaFileMetaData → ℕ × Bool
sum_cardinality total any [] = (total, any)
sum_cardinality total any (m ∷ ms) =
    sum_cardinality
      (if m.cardinality == invalid_index then total else (total + m.cardinality) % 2 ^ 64)
      (if m.cardinality == invalid_index then any else true) ms

abbrev pub estimate : ℕ × Bool → Option (ℕ × ℕ)
estimate (total, true) = some (total, total)
estimate (total, false) = none

-- `NodeStatistics(estimated, maximum)`, or a null pointer.
unfoldable pub cardinality_of : ℕ → DeltaMultiFileList → Option (ℕ × ℕ)
unfolding sum_cardinality
cardinality_of total_file_count s =
    if total_file_count == 0 then some (0, 0) else estimate (sum_cardinality 0 false s.metadata)

abbrev with_count :
    Option (Result ℕ × DeltaMultiFileList) → Option (Result (Option (ℕ × ℕ)) × DeltaMultiFileList)
with_count none = none
with_count (some (r, s)) = some (map_ok (λ n. cardinality_of n s) r, s)

unfoldable pub get_cardinality :
    Kernel → ℕ → DeltaMultiFileList → Option (Result (Option (ℕ × ℕ)) × DeltaMultiFileList)
unfolding get_total_file_count cardinality_of
get_cardinality k fuel s = with_count (get_total_file_count k fuel s)

unfoldable pub get_version : Kernel → Exec ℕ
unfolding ensure_snapshot_initialized
get_version k = do ensure_snapshot_initialized k; s ← get_state; return s.version

unfoldable pub get_metadata : ℕ → DeltaMultiFileList → Result DeltaFileMetaData
get_metadata index s = elim (get_elem? s.metadata index) [
  | none ↦
      throw internal
        (codes "Attempted to fetch metadata for nonexistent file in DeltaMultiFileList")
  | some m ↦ ok m
]

unfoldable pub get_partition_columns : Kernel → Exec (List Str)
unfolding ensure_scan_initialized
get_partition_columns k = do ensure_scan_initialized k; s ← get_state; return s.partitions
