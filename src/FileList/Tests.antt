-- ===== src/FileList/Tests.antt =====
-- A list of two batches, and the theorems there.
use duckdb_delta.Prelude.{
  ◌≡◌, refl, true, false, none, some, List, [], ◌∷◌, Str, codes, ErrorData, ok, err, io, ◌++◌,
  arith,
}
use duckdb_delta.Types.{end}
use duckdb_delta.Errors.{ok_result, err_result}
use duckdb_delta.Columns.{no_columns}
use duckdb_delta.FileList.State.{ScanFile, Batch, DeltaMultiFileList}
use duckdb_delta.Fixtures.{kernel}
use duckdb_delta.FileList.Callback.{visit_files}
use duckdb_delta.FileList.Expand.{
  get_file_internal, get_all_files, get_total_file_count, get_cardinality,
}
use duckdb_delta.FileList.Frame.{paths_of}
use duckdb_delta.FileList.Listing.{
  IsListing, some_left, get_files, get_files-path_at, path_at, listing,
}
use duckdb_delta.FileList.All.{get_all_files-total, get_total_file_count-length, answer}
use duckdb_delta.FileList.Cardinality.{statistics, get_cardinality-statistics}
use duckdb_delta.FileList.Numbers.{IsNumbered}
use duckdb_delta.FileList.Seen.{AreDescribed, all_files}
use duckdb_delta.FileList.Attributed.{IsReading, IsAttributed, get_file_internal-IsAttributed}
use duckdb_delta.FileList.Numbered.{get_file_internal-IsNumbered}
use duckdb_delta.Types.{field, bigint}
use duckdb_delta.FileList.Init.{load_partitions}
use duckdb_delta.FileList.Retry.{failed, load_partitions_again}
use duckdb_delta.FileList.Failed.{failed_file_listed}

abbrev file : Str → ScanFile
file p = record { path = p; stats = some 3; selection_vector = ok_result none; transform = none }

abbrev failing : ScanFile
failing = record {
  path = codes "c";
  stats = none;
  selection_vector = err_result none;
  transform = none;
}

abbrev batch : List ScanFile → Batch
batch fs = record { files = fs; have_scan_data = ok_result true }

abbrev batches : List Batch
batches = batch (file (codes "a") ∷ file (codes "b") ∷ []) ∷ batch (file (codes "d") ∷ []) ∷ []

abbrev list_of : List Batch → DeltaMultiFileList
list_of bs = record {
  path = codes "t/";
  version = 5;
  snapshot = some 2;
  extern_engine = 1;
  scan = 3;
  scan_data_iterator = bs;
  partitions = [];
  partition_ids = [];
  root_path = codes "t/";
  initialized_snapshot = true;
  initialized_scan = true;
  files_exhausted = false;
  metadata = [];
  resolved_files = [];
  table_filters = [];
  columns = end;
  have_bound = true;
  lazy_loaded_schema = no_columns;
}

abbrev total : List Str
total = codes "t/a" ∷ codes "t/b" ∷ codes "t/d" ∷ []

batches-IsListing : IsListing kernel total (list_of batches)
unfolding visit_files listing
batches-IsListing = some_left batches (refl, refl) refl refl (refl, (refl, (refl, (refl, tt)))) refl

get_files-path_at_example :
    get_files kernel (2 ∷ 7 ∷ 0 ∷ []) (list_of batches)
    ≡ ok (codes "t/d") ∷ ok [] ∷ ok (codes "t/a") ∷ []
get_files-path_at_example =
    get_files-path_at kernel (2 ∷ 7 ∷ 0 ∷ []) (list_of batches) total batches-IsListing

get_all_files-total_example : answer (get_all_files kernel 4 (list_of batches)) ≡ some (ok total)
get_all_files-total_example =
    get_all_files-total kernel 4 (list_of batches) total batches-IsListing
      (refl, (refl, (refl, tt))) (omega arith)

counts_files : answer (get_total_file_count kernel 4 (list_of batches)) ≡ some (ok 3)
counts_files =
    get_total_file_count-length kernel 4 (list_of batches) total batches-IsListing
      (refl, (refl, (refl, tt))) (omega arith)

get_file_internal-IsNumbered_example :
    IsNumbered ((get_file_internal kernel 1 (list_of (batch (failing ∷ []) ∷ []))).1)
get_file_internal-IsNumbered_example =
    get_file_internal-IsNumbered kernel 1 (list_of (batch (failing ∷ []) ∷ [])) refl

abbrev the_error : ErrorData
the_error = record { exception_type = io; message = codes "Unknown Delta kernel error" }

failed_file_listed_example :
    ((get_file_internal kernel 0 (list_of (batch (failing ∷ []) ∷ []))).0 ≡ err the_error)
    × ((get_file_internal kernel 0
          ((get_file_internal kernel 0 (list_of (batch (failing ∷ []) ∷ []))).1)).0
        ≡ ok (path_at ([] ++ paths_of kernel (codes "t/") (failing ∷ [])) 0))
unfolding visit_files
failed_file_listed_example =
    failed_file_listed kernel 0 (batch (failing ∷ [])) [] (list_of (batch (failing ∷ []) ∷ []))
      the_error (refl, refl) refl refl refl (omega arith) (omega arith)

abbrev with_column : DeltaMultiFileList
with_column = record (list_of []) { columns = field (codes "c") bigint end }

load_partitions_again_example :
    failed ((load_partitions (codes "c" ∷ []) ((load_partitions (codes "c" ∷ []) with_column).1)).0)
    ≡ true
unfolding load_partitions
load_partitions_again_example = load_partitions_again (codes "c") [] with_column refl refl

-- Three files, of which the counts are known where the kernel has statistics.
get_cardinality-statistics_example :
    (t : DeltaMultiFileList) × (get_cardinality kernel 4 (list_of batches)
      ≡ some (ok (statistics 3 t.metadata), t))
    × (t.resolved_files ≡ total)
get_cardinality-statistics_example =
    get_cardinality-statistics kernel 4 (list_of batches) total batches-IsListing
      (refl, (refl, (refl, tt))) (omega arith)

-- The second file has a deletion vector.
abbrev with_vector : ScanFile
with_vector = record {
  path = codes "v";
  stats = none;
  selection_vector = ok_result (some (true ∷ false ∷ []));
  transform = none;
}

abbrev two_batches : List Batch
two_batches = batch (file (codes "a") ∷ with_vector ∷ []) ∷ batch (file (codes "d") ∷ []) ∷ []

abbrev reported : List ScanFile
reported = file (codes "a") ∷ with_vector ∷ file (codes "d") ∷ []

get_file_internal-IsAttributed_example :
    IsReading kernel
      (list_of two_batches)
      reported
      ((get_file_internal kernel 1 (list_of two_batches)).1)
    × IsAttributed kernel
        (list_of two_batches)
        reported
        1
        (codes "t/v")
        ((get_file_internal kernel 1 (list_of two_batches)).1)
unfolding AreDescribed all_files get_file_internal
get_file_internal-IsAttributed_example =
    get_file_internal-IsAttributed kernel reported 1 (list_of two_batches)
      ((get_file_internal kernel 1 (list_of two_batches)).1) (codes "t/v")
      ([], ((refl, refl), (((refl, (refl, refl)), tt), refl))) refl refl
