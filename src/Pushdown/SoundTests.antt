-- ===== src/Pushdown/SoundTests.antt =====
-- The theorems on the filters of a list, there.
use mathlib.Core.Path.{subst}
use duckdb_delta.Prelude.{
  ℕ, ◌==◌, ◌≡◌, refl, inl, inr, true, false, none, some, List, [], ◌∷◌, codes,
}
use duckdb_delta.Types.{Fields, end, field}
use duckdb_delta.Paths.{to_delta_path}
use duckdb_delta.Filters.{TableFilterSet}
use duckdb_delta.FileList.State.{DeltaMultiFileList, create}
use duckdb_delta.Predicate.Arena
use duckdb_delta.Predicate.Semantics.{Row, Satisfies}
use duckdb_delta.Pushdown.{
  all_filters, get_pushdown_mode, pushdown_internal, push_all, push_new, filtered,
}
use duckdb_delta.Pushdown.Sound.{AreColumns, SatisfiesSet, Scans, pushdown_internal_sound}
use duckdb_delta.Pushdown.Fixtures.{
  library, library-IsPush, sevens, seven, columns, filtered_once, new_filters, files, no_error,
}
use duckdb_delta.Pushdown.Requests.{Request, SatisfiesDynamic, complex, dynamic, push_requests}
use duckdb_delta.Pushdown.Report.{Reporting}
use duckdb_delta.Pushdown.Handled.{Reportable, handle_all, handle_all_sound}
use duckdb_delta.Pushdown.Skipping.{IsSkipping, IsReported, Lists, row_listed}
use duckdb_delta.FileList.State.{Kernel, ScanFile, Batch}
use duckdb_delta.FileList.Init.{ensure_scan_initialized}
use duckdb_delta.FileList.Listing.{listing}
use duckdb_delta.FileList.Frame.{paths_of}
use duckdb_delta.FileList.Callback.{visit_files}
use duckdb_delta.Errors.{ok_result, try_unpack_result}
use duckdb_delta.Paths.{resolve_file}
use duckdb_delta.Prelude.{Str, ok, ok_inj, Bool, sym, arith}
use duckdb_delta.Fixtures
use duckdb_delta.Columns.{ColumnDefs, no_columns, then_column, column_def}
use mathlib.Core.List.Memᴰ.{head}

pushdown_internal_sound_runs :
    Scans Arena.kernel Arena.meaning sevens no_error
      (filtered library new_filters filtered_once (codes "d/"))
unfolding pushdown_internal to_delta_path create SatisfiesSet AreColumns push_all push_new Satisfies
pushdown_internal_sound_runs =
    pushdown_internal_sound Arena.kernel Arena.values Arena.meaning Arena.kernel-IsMeaning sevens
      library files new_filters filtered_once
      (filtered library new_filters filtered_once (codes "d/")) no_error
      (library-IsPush Arena.values sevens columns) refl (refl, tt) (refl, tt)
      (refl, (refl, (tt, tt)))

-- Two files, of which the scan with filters keeps the first.
abbrev file : Str → ScanFile
file p = record { path = p; stats = some 3; selection_vector = ok_result none; transform = none }

abbrev batch_of : List ScanFile → Batch
batch_of fs = record { files = fs; have_scan_data = ok_result true }

abbrev batches : Bool → List Batch
batches true = batch_of (file (codes "a") ∷ []) ∷ []
batches false = batch_of (file (codes "a") ∷ file (codes "b") ∷ []) ∷ []

abbrev scan_of : TableFilterSet → ℕ
scan_of [] = 3
scan_of (f ∷ fs) = 4

abbrev columns_of : Fields → ColumnDefs
columns_of end = no_columns
columns_of (field n t fs) = then_column (column_def n t none none no_columns) (columns_of fs)

abbrev skipping_kernel : Kernel
skipping_kernel = record Fixtures.kernel {
  open_scan = λ h e c fs. (ok_result (scan_of fs), none);
  iter_init = λ e s. ok_result (batches (s == 4));
  physical_schema = λ s. ok columns;
  logical_schema = λ s. ok columns;
  columns_from_names_and_types = columns_of;
}

-- The first file has all the rows.
abbrev Holds : ℕ → Str → Row → Type 0
Holds h path row = path ≡ codes "a"

batches_reported : (b : Bool) (path : Str) → path ≡ codes "a" → IsReported path (batches b)
unfolding IsReported
batches_reported true path e = inl (file (codes "a"), (sym e, head refl))
batches_reported false path e = inl (file (codes "a"), (sym e, head refl))

skipping_kernel-IsSkipping : IsSkipping skipping_kernel Arena.kernel Arena.meaning no_error Holds
unfolding try_unpack_result
skipping_kernel-IsSkipping = record {
  reported =
      λ h engine scan columns filters l p bs path row made known opened started true_of holds.
        subst (IsReported path) (ok_inj _ _ started) (batches_reported (scan == 4) path holds);
}

abbrev requests : List Request
requests = complex new_filters ∷ dynamic (1 ∷ 0 ∷ []) ((0, seven) ∷ []) ∷ []

abbrev once : DeltaMultiFileList
once = record filtered_once { snapshot = some 2 }

abbrev twice : DeltaMultiFileList
twice =
    filtered library ((1, seven) ∷ []) (filtered library new_filters once (codes "d/")) (codes "d/")

-- The first pushdown is reported to the log, where the setting is off; nobody asks for the second.
abbrev reporting : Bool → Reporting
reporting logs = record {
  explain = none;
  should_log = logs;
  setting = λ n. some false;
  to_string = λ f n. n;
  pushdown_type = [];
}

abbrev reported : List Reportable
reported =
    (complex new_filters, reporting true)
    ∷ (dynamic (1 ∷ 0 ∷ []) ((0, seven) ∷ []), reporting false)
    ∷ []

handle_all_sound_example :
    (t : DeltaMultiFileList) × ((handle_all library files Fixtures.kernel 0 none reported once
        ≡ some (ok t))
      × Scans Arena.kernel Arena.meaning sevens no_error t)
unfolding SatisfiesSet AreColumns Satisfies SatisfiesDynamic create get_pushdown_mode
handle_all_sound_example =
    handle_all_sound Arena.kernel Arena.values Arena.meaning Arena.kernel-IsMeaning sevens library
      files Fixtures.kernel 0 none all_filters reported once no_error
      (library-IsPush Arena.values sevens columns) refl refl (refl, tt) (refl, tt)
      (((refl, (refl, (tt, tt))), inr refl), (((refl, tt), inl refl), tt))

row_listed_example : Lists skipping_kernel 2 twice (resolve_file 0 (codes "d/") (codes "a"))
unfolding SatisfiesSet AreColumns Satisfies SatisfiesDynamic create get_pushdown_mode push_requests
    listing visit_files ensure_scan_initialized paths_of push_all push_new to_delta_path
    pushdown_internal
row_listed_example =
    row_listed skipping_kernel Arena.kernel Arena.values Arena.meaning Arena.kernel-IsMeaning
      no_error Holds skipping_kernel-IsSkipping library files none all_filters requests sevens 2 2
      once twice ((ensure_scan_initialized skipping_kernel twice).1) (codes "a")
      (library-IsPush Arena.values sevens columns) refl (refl, tt) (refl, tt)
      ((refl, (refl, (tt, tt))), ((refl, tt), tt)) (refl, (refl, (refl, refl))) refl refl refl
      (refl, (refl, tt)) (refl, tt) (omega arith)
