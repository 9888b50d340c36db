-- ===== src/FileList/Numbered.antt =====
-- The file numbers in the metadata of a list.
use duckdb_delta.Prelude.{
  ℕ, Bool, true, false, if◌then◌else◌, Option, none, some, List, [], ◌∷◌, ErrorData, Result, ok,
  err, arith, length, Str, ltb, Bool-cases, inl, inr,
}
use duckdb_delta.Errors.{try_unpack_result}
use duckdb_delta.FileList.State.{Batch, DeltaMultiFileList, Kernel, Exec, ◌>>=◌, continue, modify}
use duckdb_delta.FileList.Init.{
  initialize_snapshot, initialize_scan, open_scan, load_schema, read_columns, set_columns,
  ensure_snapshot_initialized, ensure_scan_initialized, load_partitions,
}
use duckdb_delta.FileList.Callback.{visit_files}
use duckdb_delta.FileList.Expand.{after_batch, expand_until, get_file_expanded, get_file_internal}
use duckdb_delta.FileList.Numbers.{IsNumbered, visit_files-IsNumbered}

if_else : {A : Type 0} (P : A → Type 0) (b : Bool) (x y : A) → P x → P y → P (if b then x else y)
if_else P true x y h l = h
if_else P false x y h l = l

-- A run that keeps the numbering, however it ends.
abbrev Left : {A : Type 0} → Result A × DeltaMultiFileList → Type 0
Left (r, s) = IsNumbered s

after_batch-Left :
    (r : Result Bool) (e : Option ErrorData)
    → (again : DeltaMultiFileList → Result Str × DeltaMultiFileList) → (s : DeltaMultiFileList)
    → IsNumbered s
    → ((t : DeltaMultiFileList) → IsNumbered t → Left (again t))
    → Left (after_batch r e again s)
unfolding after_batch
after_batch-Left r (some e) again s h g = h
after_batch-Left (err e) none again s h g = h
after_batch-Left (ok false) none again s h g = h
after_batch-Left (ok true) none again s h g = g s h

expand_until-Left :
    (k : Kernel) (i : ℕ) (bs : List Batch) (s : DeltaMultiFileList)
    → IsNumbered s
    → Left (expand_until k i bs s)
unfolding expand_until
expand_until-Left k i [] s h = elim (Bool-cases (ltb i (length s.resolved_files))) [
  | inl l ↦ rw (expand_until, l) h
  | inr l ↦ rw (expand_until, l) h
]
expand_until-Left k i (b ∷ bs) s h = elim (Bool-cases (ltb i (length s.resolved_files))) [
  | inl l ↦ rw (expand_until, l) h
  | inr l ↦
      let s' = record s { scan_data_iterator = bs } in
      rw (expand_until, l)
        (after_batch-Left (try_unpack_result b.have_scan_data) ((visit_files k b.files none s').1)
          (expand_until k i bs) ((visit_files k b.files none s').0)
          (visit_files-IsNumbered k b.files none s' h) (λ t n. expand_until-Left k i bs t n))
]

get_file_expanded-Left :
    (k : Kernel) (i : ℕ) (s : DeltaMultiFileList) → IsNumbered s → Left (get_file_expanded k i s)
unfolding get_file_expanded
get_file_expanded-Left k i s h =
    if_else Left (ltb i (length s.resolved_files)) _ _ h
      (if_else Left s.files_exhausted _ _ h (expand_until-Left k i s.scan_data_iterator s h))

abbrev Keeps : {A : Type 0} → Exec A → Type 0
Keeps m = (s : DeltaMultiFileList) → IsNumbered s → Left (m s)

initialize_snapshot-Keeps : (k : Kernel) → Keeps (initialize_snapshot k)
unfolding initialize_snapshot
initialize_snapshot-Keeps k s n = ground arith

open_scan-Keeps : (k : Kernel) → Keeps (open_scan k)
unfolding open_scan
open_scan-Keeps k s n = ground arith

load_partitions-Keeps : (ps : List Str) → Keeps (load_partitions ps)
unfolding load_partitions
load_partitions-Keeps [] s n = n
load_partitions-Keeps (p ∷ ps) s n = ground arith

continue-Left :
    {A B : Type 0} (f : A → Exec B) (p : Result A × DeltaMultiFileList)
    → Left p
    → ((a : A) → Keeps (f a))
    → Left (continue (p.0) f (p.1))
continue-Left f (ok a, t) n h = h a t n
continue-Left f (err e, t) n h = n

load_schema-Keeps : (k : Kernel) → Keeps (load_schema k)
unfolding load_schema
load_schema-Keeps k s n =
    continue-Left (λ defs. modify (set_columns defs)) (read_columns k s, s) n (λ defs t m. m)

initialize_scan-Keeps : (k : Kernel) → Keeps (initialize_scan k)
unfolding initialize_scan
initialize_scan-Keeps k s n =
    let load = λ (h : ℕ). load_partitions (k.partition_columns h) >>= λ _. load_schema k in
    continue-Left load (open_scan k s) (open_scan-Keeps k s n) (λ h t m.
      continue-Left (λ _. load_schema k) (load_partitions (k.partition_columns h) t)
        (load_partitions-Keeps (k.partition_columns h) t m) (λ _. load_schema-Keeps k))

ensure_snapshot_initialized-Keeps : (k : Kernel) → Keeps (ensure_snapshot_initialized k)
unfolding ensure_snapshot_initialized
ensure_snapshot_initialized-Keeps k s n = ground (arith, initialize_snapshot-Keeps k s n)

ensure_scan_initialized-Keeps : (k : Kernel) → Keeps (ensure_scan_initialized k)
unfolding ensure_scan_initialized
ensure_scan_initialized-Keeps k s n =
    continue-Left _ (ensure_snapshot_initialized k s) (ensure_snapshot_initialized-Keeps k s n)
      (λ u t m.
        if_else (λ (x : Exec (Unit {0})). Left (x t)) t.initialized_scan _ _ m
          (initialize_scan-Keeps k t m))

-- Where the files that are listed have their metadata in order, the `i`-th with the number `i`, they
-- have it so after `GetFileInternal`, whatever the kernel answers, and whether it returns or throws.
pub get_file_internal-IsNumbered :
    (k : Kernel) (i : ℕ) (s : DeltaMultiFileList)
    → IsNumbered s
    → IsNumbered ((get_file_internal k i s).1)
unfolding get_file_internal
get_file_internal-IsNumbered k i s n =
    continue-Left (λ u. get_file_expanded k i) (ensure_scan_initialized k s)
      (ensure_scan_initialized-Keeps k s n) (λ u. get_file_expanded-Left k i)
