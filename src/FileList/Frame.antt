-- ===== src/FileList/Frame.antt =====
-- What the visit of files appends, and what it leaves alone.
use mathlib.Core.List.{append-nil, append_assoc}
use duckdb_delta.Prelude.{
  ◌≡◌, refl, sym, ap, ◌∙◌, ◌++◌, Bool, true, false, if◌then◌else◌, Option, none, some, List, [],
  ◌∷◌, Str, ErrorData, Result, ok, err, ◌>>=◌,
}
use duckdb_delta.Paths.{resolve_file}
use duckdb_delta.Errors.{ExternResult, try_unpack_result}
use duckdb_delta.Expression.Kernel.{KernelExprs, visit_kernel_expression}
use duckdb_delta.FileList.State.{DeltaFileMetaData, ScanFile, DeltaMultiFileList, Kernel}
use duckdb_delta.FileList.Callback.{
  set_selection, change_back, is_nil, or_null, constant_map, keep, then_fetch, latest, append_file,
  fetch_deletion_vector, fetch_partitions, is_unknown_storage_format, visit_callback, visit_files,
}

-- Everything but the metadata is the same.
pub record Frame (s t : DeltaMultiFileList) : Type 0 where
  pub path : t.path ≡ s.path
  pub version : t.version ≡ s.version
  pub partitions : t.partitions ≡ s.partitions
  pub partition_ids : t.partition_ids ≡ s.partition_ids
  pub iterator : t.scan_data_iterator ≡ s.scan_data_iterator
  pub snapshot_ready : t.initialized_snapshot ≡ s.initialized_snapshot
  pub scan_ready : t.initialized_scan ≡ s.initialized_scan
  pub exhausted : t.files_exhausted ≡ s.files_exhausted

-- The same list of files, too.
abbrev pub Same : DeltaMultiFileList → DeltaMultiFileList → Type 0
Same s t = Frame s t × (t.resolved_files ≡ s.resolved_files)

pub Frame-refl : (s : DeltaMultiFileList) → Frame s s
Frame-refl s = record {
  path = refl;
  version = refl;
  partitions = refl;
  partition_ids = refl;
  iterator = refl;
  snapshot_ready = refl;
  scan_ready = refl;
  exhausted = refl;
}

pub Frame-trans : {s t u : DeltaMultiFileList} → Frame s t → Frame t u → Frame s u
Frame-trans a b = record {
  path = b.path ∙ a.path;
  version = b.version ∙ a.version;
  partitions = b.partitions ∙ a.partitions;
  partition_ids = b.partition_ids ∙ a.partition_ids;
  iterator = b.iterator ∙ a.iterator;
  snapshot_ready = b.snapshot_ready ∙ a.snapshot_ready;
  scan_ready = b.scan_ready ∙ a.scan_ready;
  exhausted = b.exhausted ∙ a.exhausted;
}

pub append_file-Frame :
    (k : Kernel) (f : ScanFile) (s : DeltaMultiFileList) → Frame s (append_file k f s)
unfolding append_file
append_file-Frame k f s = record {
  path = refl;
  version = refl;
  partitions = refl;
  partition_ids = refl;
  iterator = refl;
  snapshot_ready = refl;
  scan_ready = refl;
  exhausted = refl;
}

change_back-Same :
    (f : DeltaFileMetaData → DeltaFileMetaData) (s : DeltaMultiFileList) → Same s (change_back f s)
change_back-Same f s = (
  record {
    path = refl;
    version = refl;
    partitions = refl;
    partition_ids = refl;
    iterator = refl;
    snapshot_ready = refl;
    scan_ready = refl;
    exhausted = refl;
  },
  refl,
)

abbrev pub OkAll : (DeltaMultiFileList → Type 0) → Result DeltaMultiFileList → Type 0
OkAll P (ok t) = P t
OkAll P (err e) = Unit

pub OkAll-if :
    (P : DeltaMultiFileList → Type 0) (b : Bool) (x y : Result DeltaMultiFileList)
    → OkAll P x
    → OkAll P y
    → OkAll P (if b then x else y)
OkAll-if P true x y h l = h
OkAll-if P false x y h l = l

pub OkAll-bind :
    {A : Type 0} (P : DeltaMultiFileList → Type 0) (r : Result A)
    (f : A → Result DeltaMultiFileList)
    → ((a : A) → OkAll P (f a))
    → OkAll P (r >>= f)
OkAll-bind P (ok a) f h = h a
OkAll-bind P (err e) f h = tt

set_selection-Same : (v : Option (List Bool)) (s : DeltaMultiFileList) → Same s (set_selection v s)
set_selection-Same none s = (Frame-refl s, refl)
set_selection-Same (some v) s = change_back-Same (λ m. record m { selection_vector = some v }) s

deletion_vector-Same :
    (r : ExternResult (Option (List Bool))) (s : DeltaMultiFileList)
    → OkAll (Same s) (fetch_deletion_vector r s)
unfolding fetch_deletion_vector
deletion_vector-Same r s =
    OkAll-if (Same s) (is_unknown_storage_format r) (ok s) _ (Frame-refl s, refl)
      (OkAll-bind (Same s) (try_unpack_result r) (λ v. ok (set_selection v s))
        (λ v. set_selection-Same v s))

partitions-Same :
    (k : Kernel) (x : Option KernelExprs) (s : DeltaMultiFileList)
    → OkAll (Same s) (fetch_partitions k x s)
unfolding fetch_partitions
partitions-Same k none s = OkAll-if (Same s) (is_nil s.partitions) (ok s) _ (Frame-refl s, refl) tt
partitions-Same k (some transform) s =
    OkAll-bind (Same s) (visit_kernel_expression k.library transform) _ (λ visited.
      OkAll-bind (Same s) (or_null visited) _ (λ parsed.
        OkAll-bind (Same s) (constant_map parsed s.partitions s.partition_ids []) _ (λ m.
          change_back-Same (λ d. record d { partition_map = m; transform_expression = some parsed })
            s)))

-- What a visit keeps, errors included: the frame, and one more file.
abbrev pub Appends : List Str → DeltaMultiFileList → DeltaMultiFileList → Type 0
Appends new s t = Frame s t × (t.resolved_files ≡ s.resolved_files ++ new)

keep-Same :
    (s : DeltaMultiFileList) (r : Result DeltaMultiFileList)
    → OkAll (Same s) r
    → Same s ((keep s r).0)
keep-Same s (ok t) h = h
keep-Same s (err e) h = (Frame-refl s, refl)

Same-trans : {s t u : DeltaMultiFileList} → Same s t → Same t u → Same s u
Same-trans a b = (Frame-trans a.0 b.0, b.1 ∙ a.1)

then_fetch-Same :
    {s : DeltaMultiFileList} (f : DeltaMultiFileList → DeltaMultiFileList × Option ErrorData)
    → (p : DeltaMultiFileList × Option ErrorData) → Same s (p.0)
    → ((t : DeltaMultiFileList) → Same t ((f t).0))
    → Same s ((then_fetch f p).0)
then_fetch-Same f (t, none) h g = Same-trans h (g t)
then_fetch-Same f (t, some e) h g = h

pub visit_callback-Appends :
    (k : Kernel) (f : ScanFile) (s : DeltaMultiFileList)
    → Appends (resolve_file k.garbage s.path f.path ∷ []) s ((visit_callback k f s).0)
unfolding visit_callback append_file
visit_callback-Appends k f s =
    let s' = append_file k f s in
    let h =
      then_fetch-Same {s = s'} (λ t. keep t (fetch_partitions k f.transform t))
        (keep s' (fetch_deletion_vector f.selection_vector s'))
        (keep-Same s' _ (deletion_vector-Same f.selection_vector s'))
        (λ t. keep-Same t _ (partitions-Same k f.transform t)) in
    (Frame-trans (append_file-Frame k f s) h.0, h.1)

-- The paths of the files of a batch, and of all that is left.
unfoldable pub paths_of : Kernel → Str → List ScanFile → List Str
paths_of k path [] = []
paths_of k path (f ∷ fs) = resolve_file k.garbage path f.path ∷ paths_of k path fs

pub visit_files-Appends :
    (k : Kernel) (fs : List ScanFile) (e : Option ErrorData) (s : DeltaMultiFileList)
    → Appends (paths_of k s.path fs) s ((visit_files k fs e s).0)
unfolding visit_files paths_of
visit_files-Appends k [] e s = (Frame-refl s, sym (append-nil s.resolved_files))
visit_files-Appends k (f ∷ fs) e s =
    let p = visit_callback k f s in
    let h = visit_callback-Appends k f s in
    let r = visit_files-Appends k fs (latest e (p.1)) (p.0) in
    let a = resolve_file k.garbage s.path f.path in
    (
      Frame-trans (h.0) (r.0),
      r.1
          ∙ ap (λ l. l ++ paths_of k ((p.0).path) fs) (h.1)
          ∙ ap (λ q. (s.resolved_files ++ a ∷ []) ++ paths_of k q fs) ((h.0).path)
          ∙ append_assoc s.resolved_files (a ∷ []) (paths_of k s.path fs),
    )
