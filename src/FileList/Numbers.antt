-- ===== src/FileList/Numbers.antt =====
-- The numbers of the files through the visit of one.
use duckdb_delta.Prelude.{
  ℕ, zero, suc, ◌+◌, ◌≡◌, refl, ap, ◌∙◌, ◌++◌, Bool, Option, none, some, List, [], ◌∷◌, ErrorData,
  Result, ok, err, arith, length, length-append,
}
use duckdb_delta.Errors.{ExternResult, try_unpack_result}
use duckdb_delta.Paths.{resolve_file}
use duckdb_delta.Expression.Kernel.{KernelExprs, visit_kernel_expression}
use duckdb_delta.FileList.State.{DeltaFileMetaData, ScanFile, DeltaMultiFileList, Kernel}
use duckdb_delta.FileList.Callback.{
  set_selection, change_last, is_nil, or_null, constant_map, keep, then_fetch, latest, append_file,
  fetch_deletion_vector, fetch_partitions, is_unknown_storage_format, visit_callback, visit_files,
  new_metadata,
}
use duckdb_delta.FileList.Frame.{OkAll, OkAll-if, OkAll-bind, visit_callback-Appends}

abbrev pub numbers : List DeltaFileMetaData → List ℕ
numbers [] = []
numbers (m ∷ ms) = m.file_number ∷ numbers ms

abbrev pub count_from : ℕ → ℕ → List ℕ
count_from i zero = []
count_from i (suc n) = i ∷ count_from (suc i) n

-- Every file that is listed has its metadata, with its own number.
abbrev pub IsNumbered : DeltaMultiFileList → Type 0
IsNumbered s = numbers s.metadata ≡ count_from 0 (length s.resolved_files)

abbrev SameNumbers : DeltaMultiFileList → DeltaMultiFileList → Type 0
SameNumbers s t = numbers t.metadata ≡ numbers s.metadata

change_last-numbers :
    (f : DeltaFileMetaData → DeltaFileMetaData) (ms : List DeltaFileMetaData)
    → ((m : DeltaFileMetaData) → (f m).file_number ≡ m.file_number)
    → numbers (change_last f ms) ≡ numbers ms
unfolding change_last
change_last-numbers f [] h = refl
change_last-numbers f (m ∷ []) h = ap (λ i. i ∷ []) (h m)
change_last-numbers f (m ∷ n ∷ ms) h = ap (◌∷◌ m.file_number) (change_last-numbers f (n ∷ ms) h)

set_selection-numbers :
    (v : Option (List Bool)) (s : DeltaMultiFileList) → SameNumbers s (set_selection v s)
set_selection-numbers none s = refl
set_selection-numbers (some v) s =
    change_last-numbers (λ m. record m { selection_vector = some v }) s.metadata (λ m. refl)

deletion_vector-numbers :
    (r : ExternResult (Option (List Bool))) (s : DeltaMultiFileList)
    → OkAll (SameNumbers s) (fetch_deletion_vector r s)
unfolding fetch_deletion_vector
deletion_vector-numbers r s =
    OkAll-if (SameNumbers s) (is_unknown_storage_format r) (ok s) _ refl
      (OkAll-bind (SameNumbers s) (try_unpack_result r) _ (λ v. set_selection-numbers v s))

partitions-numbers :
    (k : Kernel) (x : Option KernelExprs) (s : DeltaMultiFileList)
    → OkAll (SameNumbers s) (fetch_partitions k x s)
unfolding fetch_partitions
partitions-numbers k none s = OkAll-if (SameNumbers s) (is_nil s.partitions) (ok s) _ refl tt
partitions-numbers k (some transform) s =
    OkAll-bind (SameNumbers s) (visit_kernel_expression k.library transform) _ (λ visited.
      OkAll-bind (SameNumbers s) (or_null visited) _ (λ parsed.
        OkAll-bind (SameNumbers s) (constant_map parsed s.partitions s.partition_ids []) _ (λ m.
          change_last-numbers
            (λ d. record d { partition_map = m; transform_expression = some parsed }) s.metadata
            (λ d. refl))))

keep-numbers :
    (s : DeltaMultiFileList) (r : Result DeltaMultiFileList)
    → OkAll (SameNumbers s) r
    → SameNumbers s ((keep s r).0)
keep-numbers s (ok t) h = h
keep-numbers s (err e) h = refl

then_fetch-numbers :
    (s : DeltaMultiFileList) (f : DeltaMultiFileList → DeltaMultiFileList × Option ErrorData)
    → (p : DeltaMultiFileList × Option ErrorData) → SameNumbers s (p.0)
    → ((t : DeltaMultiFileList) → SameNumbers t ((f t).0))
    → SameNumbers s ((then_fetch f p).0)
then_fetch-numbers s f (t, none) h g = g t ∙ h
then_fetch-numbers s f (t, some e) h g = h

numbers-append : (ms ns : List DeltaFileMetaData) → numbers (ms ++ ns) ≡ numbers ms ++ numbers ns
numbers-append [] ns = refl
numbers-append (m ∷ ms) ns = ap (◌∷◌ m.file_number) (numbers-append ms ns)

count_from-suc : (i n l : ℕ) → l ≡ i + n → count_from i n ++ l ∷ [] ≡ count_from i (suc n)
count_from-suc i zero l h = let q : l ≡ i = omega arith in ap (λ x. x ∷ []) q
count_from-suc i (suc n) l h = ap (◌∷◌ i) (count_from-suc (suc i) n l (omega arith))

visit_callback-numbers :
    (k : Kernel) (f : ScanFile) (s : DeltaMultiFileList)
    → numbers ((visit_callback k f s).0).metadata
      ≡ numbers s.metadata ++ length s.resolved_files ∷ []
unfolding visit_callback append_file new_metadata
visit_callback-numbers k f s =
    let s' = append_file k f s in
    then_fetch-numbers s' (λ t. keep t (fetch_partitions k f.transform t))
      (keep s' (fetch_deletion_vector f.selection_vector s'))
      (keep-numbers s' _ (deletion_vector-numbers f.selection_vector s'))
      (λ t. keep-numbers t _ (partitions-numbers k f.transform t))
    ∙ numbers-append s.metadata _

visit_callback-IsNumbered :
    (k : Kernel) (f : ScanFile) (s : DeltaMultiFileList)
    → IsNumbered s
    → IsNumbered ((visit_callback k f s).0)
visit_callback-IsNumbered k f s h =
    let n = length s.resolved_files in
    let t = (visit_callback k f s).0 in
    let new = visit_callback-Appends k f s in
    let q : suc n ≡ length t.resolved_files = omega (
      arith,
      ap length (new.1),
      length-append s.resolved_files (resolve_file k.garbage s.path f.path ∷ []),
    ) in
    visit_callback-numbers k f s
    ∙ ap (λ x. x ++ n ∷ []) h
    ∙ count_from-suc 0 n n (omega arith)
    ∙ ap (count_from 0) q

pub visit_files-IsNumbered :
    (k : Kernel) (fs : List ScanFile) (e : Option ErrorData) (s : DeltaMultiFileList)
    → IsNumbered s
    → IsNumbered ((visit_files k fs e s).0)
unfolding visit_files
visit_files-IsNumbered k [] e s h = h
visit_files-IsNumbered k (f ∷ fs) e s h =
    visit_files-IsNumbered k fs (latest e ((visit_callback k f s).1)) ((visit_callback k f s).0)
      (visit_callback-IsNumbered k f s h)
