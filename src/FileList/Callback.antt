-- ===== src/FileList/Callback.antt =====
-- `VisitCallbackInternal` and `VisitCallback`: what the kernel's visit of one data file does.
use duckdb_delta.Prelude.{
  ℕ, zero, suc, ◌++◌, Bool, true, false, Option, none, some, List, [], ◌∷◌, Str, codes, str_eq,
  lower, ErrorData, Result, ok, err, throw, io, internal, ◌>>=◌, length, if◌then◌else◌,
}
use duckdb_delta.Values.{
  Value, Expr, expr, constant, column_ref, function, conjunction, comparison, operator, Exprs,
  no_exprs, then_expr,
}
use duckdb_delta.Errors.{ExternResult, ok_result, err_result, invalid_tag, try_unpack_result}
use duckdb_delta.Paths.{resolve_file}
use duckdb_delta.Expression.Kernel.{KernelExprs, visit_kernel_expression}
use duckdb_delta.FileList.State.{
  invalid_index, DeltaFileMetaData, ScanFile, DeltaMultiFileList, Kernel,
}

-- `case_insensitive_map_t`: assigning a name again replaces the entry.
unfoldable pub assign : Str → Value → List (Str × Value) → List (Str × Value)
assign n v [] = (n, v) ∷ []
assign n v ((m, w) ∷ l) = if str_eq (lower m) (lower n) then (m, v) ∷ l else (m, w) ∷ assign n v l

-- `UnpackTopLevelStruct`: the children of a single `struct_pack`. (The messages end in a printed
-- number, left out here.)
unfoldable pub unpack_top_level_struct : Exprs → Result Exprs
unpack_top_level_struct (then_expr (expr a (function name children o)) no_exprs) =
    if str_eq name (codes "struct_pack")
    then ok children
    else throw io
        (codes "Unexpected function of root expression returned by delta kernel: " ++ name)
unpack_top_level_struct (then_expr (expr a (constant x)) no_exprs) =
    throw io (codes "Unexpected type of root expression returned by delta kernel")
unpack_top_level_struct (then_expr (expr a (column_ref x)) no_exprs) =
    throw io (codes "Unexpected type of root expression returned by delta kernel")
unpack_top_level_struct (then_expr (expr a (conjunction t x)) no_exprs) =
    throw io (codes "Unexpected type of root expression returned by delta kernel")
unpack_top_level_struct (then_expr (expr a (comparison t x y)) no_exprs) =
    throw io (codes "Unexpected type of root expression returned by delta kernel")
unpack_top_level_struct (then_expr (expr a (operator t x)) no_exprs) =
    throw io (codes "Unexpected type of root expression returned by delta kernel")
unpack_top_level_struct no_exprs =
    throw io (codes "Unexpected size of transformation expression returned by delta kernel")
unpack_top_level_struct (then_expr e (then_expr f es)) =
    throw io (codes "Unexpected size of transformation expression returned by delta kernel")

-- An element of a vector; reading past its end throws.
unfoldable pub nth_expr : Exprs → ℕ → Result Expr
nth_expr no_exprs i = throw internal (codes "Attempted to access index outside a vector")
nth_expr (then_expr e es) zero = ok e
nth_expr (then_expr e es) (suc i) = nth_expr es i

unfoldable pub constant_of : Expr → Result Value
constant_of (expr a (constant x)) = ok x
constant_of _ =
    throw io (codes "Failed to parse partition value from kernel-provided transformation")

unfoldable pub get_partition_value_from_expression : Exprs → ℕ → Result Value
unfolding unpack_top_level_struct nth_expr constant_of
get_partition_value_from_expression parsed_expression index = do
  column_expressions ← unpack_top_level_struct parsed_expression
  child ← nth_expr column_expressions index
  constant_of child

-- The loop over the partitions with their column numbers.
unfoldable pub constant_map :
    Exprs → List Str → List ℕ → List (Str × Value) → Result (List (Str × Value))
unfolding assign get_partition_value_from_expression
constant_map parsed [] ids m = ok m
constant_map parsed (n ∷ names) [] m =
    throw internal (codes "Attempted to access index outside a vector")
constant_map parsed (n ∷ names) (id ∷ ids) m =
    let rest = λ (v : Value). constant_map parsed names ids (assign n v m) in
    get_partition_value_from_expression parsed id >>= rest

-- The metadata of the file that was appended last, changed in place.
unfoldable pub change_last :
    (DeltaFileMetaData → DeltaFileMetaData) → List DeltaFileMetaData → List DeltaFileMetaData
change_last f [] = []
change_last f (m ∷ []) = f m ∷ []
change_last f (m ∷ n ∷ ms) = m ∷ change_last f (n ∷ ms)

abbrev pub change_back :
    (DeltaFileMetaData → DeltaFileMetaData) → DeltaMultiFileList → DeltaMultiFileList
change_back f s = record s { metadata = change_last f s.metadata }

abbrev pub or_invalid : Option ℕ → ℕ
or_invalid none = invalid_index
or_invalid (some n) = n

-- The metadata as it stands before the deletion vector is fetched.
unfoldable pub new_metadata : DeltaMultiFileList → Option ℕ → DeltaFileMetaData
new_metadata s stats = record {
  delta_snapshot_version = s.version;
  file_number = length s.resolved_files;
  cardinality = or_invalid stats;
  selection_vector = none;
  partition_map = [];
  transform_expression = none;
}

-- The file and its metadata are appended first.
unfoldable pub append_file : Kernel → ScanFile → DeltaMultiFileList → DeltaMultiFileList
unfolding resolve_file new_metadata
append_file k f s = record s {
  resolved_files = s.resolved_files ++ resolve_file k.garbage s.path f.path ∷ [];
  metadata = s.metadata ++ new_metadata s f.stats ∷ [];
}

-- The workaround: this one error is taken for "no deletion vector".
unfoldable pub is_unknown_storage_format : ExternResult (Option (List Bool)) → Bool
is_unknown_storage_format (err_result (some e)) =
    str_eq e.error_message (codes "Deletion Vector error: Unknown storage format: ''.")
is_unknown_storage_format (err_result none) = false
is_unknown_storage_format (ok_result v) = false
is_unknown_storage_format invalid_tag = false

abbrev pub set_selection : Option (List Bool) → DeltaMultiFileList → DeltaMultiFileList
set_selection none s = s
set_selection (some v) s = change_back (λ m. record m { selection_vector = some v }) s

-- The deletion vector: `err` is what the callback reports, and ends it.
unfoldable pub fetch_deletion_vector :
    ExternResult (Option (List Bool)) → DeltaMultiFileList → Result DeltaMultiFileList
unfolding is_unknown_storage_format try_unpack_result change_last
fetch_deletion_vector r s =
    if is_unknown_storage_format r
    then ok s
    else (try_unpack_result r >>= λ v. ok (set_selection v s))

abbrev pub is_nil : List Str → Bool
is_nil [] = true
is_nil (n ∷ ns) = false

abbrev pub or_null : Option Exprs → Result Exprs
or_null (some es) = ok es
or_null none =
    throw io (codes "Failed to parse transformation expression from delta kernel: null returned")

-- The partition values, from the transform.
unfoldable pub fetch_partitions :
    Kernel → Option KernelExprs → DeltaMultiFileList → Result DeltaMultiFileList
unfolding visit_kernel_expression constant_map change_last
fetch_partitions k none s =
    if is_nil s.partitions
    then ok s
    else throw io
        (codes "Failed to fetch partitions from delta kernel transform! Transform is empty")
fetch_partitions k (some transform) s = do
  visited ← visit_kernel_expression k.library transform
  parsed ← or_null visited
  m ← constant_map parsed s.partitions s.partition_ids []
  ok (change_back (λ d. record d { partition_map = m; transform_expression = some parsed }) s)

abbrev pub keep :
    DeltaMultiFileList → Result DeltaMultiFileList → DeltaMultiFileList × Option ErrorData
keep s (ok s') = (s', none)
keep s (err e) = (s, some e)

abbrev pub then_fetch :
    (DeltaMultiFileList → DeltaMultiFileList × Option ErrorData)
    → DeltaMultiFileList × Option ErrorData
    → DeltaMultiFileList × Option ErrorData
then_fetch f (s, none) = f s
then_fetch f (s, some e) = (s, some e)

-- `VisitCallback`: an exception is caught, so an error that is set and one that is thrown end alike
-- in `context->error`; what was appended stays.
unfoldable pub visit_callback :
    Kernel → ScanFile → DeltaMultiFileList → DeltaMultiFileList × Option ErrorData
unfolding append_file fetch_deletion_vector fetch_partitions
visit_callback k f s =
    let s' = append_file k f s in
    then_fetch (λ t. keep t (fetch_partitions k f.transform t))
      (keep s' (fetch_deletion_vector f.selection_vector s'))

abbrev pub latest : Option ErrorData → Option ErrorData → Option ErrorData
latest e none = e
latest e (some e') = some e'

-- The kernel visits every file of a batch, also after an error; a later error replaces it.
unfoldable pub visit_files :
    Kernel
    → List ScanFile
    → Option ErrorData
    → DeltaMultiFileList
    → DeltaMultiFileList × Option ErrorData
unfolding visit_callback
visit_files k [] e s = (s, e)
visit_files k (f ∷ fs) e s =
    let (s', e') = visit_callback k f s in visit_files k fs (latest e e') s'
