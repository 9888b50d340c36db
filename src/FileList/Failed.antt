-- ===== src/FileList/Failed.antt =====
-- What a failed visit leaves behind.
use duckdb_delta.Prelude.{
  ℕ, suc, ◌+◌, ◌≤◌, ◌<◌, ◌≡◌, refl, ap, ◌∙◌, ◌++◌, true, false, none, some, List, [], ◌∷◌, Str,
  ErrorData, ok, err, arith, ltb, length, length-append,
}
use duckdb_delta.FileList.State.{ScanFile, Batch, DeltaMultiFileList, Kernel}
use duckdb_delta.FileList.Callback.{visit_files}
use duckdb_delta.FileList.Expand.{after_batch, expand_until, get_file_expanded, get_file_internal}
use duckdb_delta.FileList.Frame.{paths_of, visit_files-Appends}
use duckdb_delta.FileList.Listing.{IsReady, taking, path_at, ensure_scan_ready}

length-paths_of :
    (k : Kernel) (path : Str) (b : Batch) → length (paths_of k path b.files) ≡ length b.files
unfolding paths_of
length-paths_of k path b = go b.files
  where
    go : (fs : List ScanFile) → length (paths_of k path fs) ≡ length fs
    go [] = refl
    go (f ∷ fs) = ap suc (go fs)

before_lem : (a b : ℕ) → a < b → ltb a b ≡ true
before_lem a b h = ground arith

after_lem : (a b : ℕ) → b ≤ a → ltb a b ≡ false
after_lem a b h = ground arith

-- A batch that fails: the call throws.
failing_read :
    (k : Kernel) (i : ℕ) (b : Batch) (bs : List Batch) (s : DeltaMultiFileList) (e : ErrorData)
    → IsReady s
    → s.files_exhausted ≡ false
    → s.scan_data_iterator ≡ b ∷ bs
    → length s.resolved_files ≤ i
    → (visit_files k b.files none (taking bs s)).1 ≡ some e
    → get_file_internal k i s ≡ (err e, (visit_files k b.files none (taking bs s)).0)
unfolding get_file_internal get_file_expanded expand_until after_batch
failing_read k i b bs s e y x q l v =
    let past = after_lem i (length s.resolved_files) l in
    let opened : get_file_internal k i s ≡ expand_until k i s.scan_data_iterator s =
      simp (ensure_scan_ready k s y, past, x) in
    let failed : expand_until k i (b ∷ bs) s
        ≡ (err e, (visit_files k b.files none (taking bs s)).0) =
      simp (expand_until, past, v) in
    opened ∙ ap (λ z. expand_until k i z s) q ∙ failed

-- A file that is listed is returned.
second_read :
    (k : Kernel) (i : ℕ) (s : DeltaMultiFileList)
    → IsReady s
    → i < length s.resolved_files
    → (get_file_internal k i s).0 ≡ ok (path_at s.resolved_files i)
unfolding get_file_internal get_file_expanded
second_read k i s y l = simp (ensure_scan_ready k s y, before_lem i (length s.resolved_files) l)

-- Where a call of the kernel visits files of which one fails, `GetFileInternal` throws, and all files
-- that were visited are listed nevertheless, the failed one too: the next call for any of these
-- numbers returns its path.
pub failed_file_listed :
    (k : Kernel) (i : ℕ) (b : Batch) (bs : List Batch) (s : DeltaMultiFileList) (e : ErrorData)
    → IsReady s
    → s.files_exhausted ≡ false
    → s.scan_data_iterator ≡ b ∷ bs
    → (visit_files k b.files none (taking bs s)).1 ≡ some e
    → length s.resolved_files ≤ i
    → i < length s.resolved_files + length b.files
    → ((get_file_internal k i s).0 ≡ err e)
      × ((get_file_internal k i ((get_file_internal k i s).1)).0
          ≡ ok (path_at (s.resolved_files ++ paths_of k s.path b.files) i))
failed_file_listed k i b bs s e y x q v l m =
    let h = failing_read k i b bs s e y x q l v in
    let t = (visit_files k b.files none (taking bs s)).0 in
    let w = visit_files-Appends k b.files none (taking bs s) in
    let ready : IsReady t = ((w.0).snapshot_ready ∙ y.0, (w.0).scan_ready ∙ y.1) in
    let bound : i < length t.resolved_files = omega (
      arith,
      m,
      ap length (w.1),
      length-append s.resolved_files (paths_of k s.path b.files),
      length-paths_of k s.path b,
    ) in
    (
      ap (λ p. p.0) h,
      ap (λ p. (get_file_internal k i (p.1)).0) h
          ∙ second_read k i t ready bound
          ∙ ap (λ z. ok (path_at z i)) (w.1),
    )
