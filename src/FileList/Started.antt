-- ===== src/FileList/Started.antt =====
-- A list that is read before it is initialised.
use duckdb_delta.Prelude.{
  ℕ, zero, suc, ◌+◌, is_empty, ◌≡◌, refl, ap, true, false, some, length, Str, Result, ok, err,
}
use duckdb_delta.FileList.State.{DeltaMultiFileList, Kernel}
use duckdb_delta.FileList.Init.{ensure_scan_initialized}
use duckdb_delta.FileList.Listing.{IsReady, ensure_scan_ready}
use duckdb_delta.FileList.Expand.{get_file_internal, get_all_from, get_all_files}

-- The first read of a list is a read of the list that its initialisation leaves.
get_file_internal-after :
    (k : Kernel) (i : ℕ) (s u : DeltaMultiFileList)
    → ensure_scan_initialized k s ≡ (ok tt, u)
    → IsReady u
    → get_file_internal k i s ≡ get_file_internal k i u
unfolding get_file_internal
get_file_internal-after k i s u e y = rw (e, ensure_scan_ready k u y) refl

pub get_all_from-after :
    (k : Kernel) (fuel i : ℕ) (s u : DeltaMultiFileList)
    → ensure_scan_initialized k s ≡ (ok tt, u)
    → IsReady u
    → get_all_from k fuel i s ≡ get_all_from k fuel i u
unfolding get_all_from
get_all_from-after k zero i s u e y = refl
get_all_from-after k (suc fuel) i s u e y =
    ap
      (λ (p : Result Str × DeltaMultiFileList). elim (p.0) [
        | err d ↦ some (err d, p.1)
        | ok path ↦ elim (is_empty path) [
          | true ↦ some (ok tt, p.1)
          | false ↦ get_all_from k fuel (i + 1) (p.1)
        ]
      ])
      (get_file_internal-after k i s u e y)

pub get_all_files-after :
    (k : Kernel) (fuel : ℕ) (s u : DeltaMultiFileList)
    → ensure_scan_initialized k s ≡ (ok tt, u)
    → IsReady u
    → u.resolved_files ≡ s.resolved_files
    → get_all_files k fuel s ≡ get_all_files k fuel u
unfolding get_all_files
get_all_files-after k fuel s u e y r =
    rw (get_all_from-after k fuel (length s.resolved_files) s u e y, r) refl
