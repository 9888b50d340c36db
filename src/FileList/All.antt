-- ===== src/FileList/All.antt =====
-- `GetAllFiles` and `GetTotalFileCount`: the loop that reads the list to its end.
use duckdb_delta.Prelude.{
  ℕ, zero, suc, ◌+◌, ◌≤◌, ◌<◌, ◌≡◌, refl, ap, ◌∙◌, false, Option, none, some, List, [], ◌∷◌, Str,
  is_empty, Result, ok, arith, length, All, Bool-cases, inl, inr, ltb,
}
use duckdb_delta.FileList.State.{DeltaMultiFileList, Kernel}
use duckdb_delta.FileList.Expand.{
  get_file_internal, get_all_from, get_all_files, get_total_file_count, map_ok, finish_all,
}
use duckdb_delta.FileList.Listing.{
  IsListing, path_at, path_at-end, get_file_internal-Reads, resolved_bound, ltb-true, ltb-false,
}

-- A path that is not empty.
abbrev pub IsNamed : Str → Type 0
IsNamed p = is_empty p ≡ false

path_at-IsNamed :
    (total : List Str) (i : ℕ) → All IsNamed total → i < length total → IsNamed (path_at total i)
path_at-IsNamed [] i h l = elim l [ ]
path_at-IsNamed (x ∷ xs) zero h l = h.0
path_at-IsNamed (x ∷ xs) (suc i) h l = path_at-IsNamed xs i (h.1) (omega arith)

-- The loop ends with everything read.
abbrev pub Ends : List Str → Option (Result (Unit {0}) × DeltaMultiFileList) → Type 0
Ends total none = ⊥
Ends total (some (r, s)) = (r ≡ ok tt) × (s.resolved_files ≡ total)

pub get_all_from-Ends :
    (k : Kernel) (fuel i : ℕ) (s : DeltaMultiFileList) (total : List Str)
    → IsListing k total s
    → All IsNamed total
    → i ≤ length total
    → length total < fuel + i
    → Ends total (get_all_from k fuel i s)
unfolding get_all_from
get_all_from-Ends k zero i s total h n l m = absurd (omega arith)
get_all_from-Ends k (suc fuel) i s total h n l m = elim (Bool-cases (ltb i (length total))) [
  | inl lt_length ↦
      let r = get_file_internal-Reads k i s total h in
      let named = path_at-IsNamed total i n (ltb-true _ _ lt_length) in
      rw (get_all_from, r.0, named)
        (get_all_from-Ends k fuel (i + 1) ((get_file_internal k i s).1) total ((r.1).0) n
          (omega (arith, ltb-true _ _ lt_length)) (omega arith))
  | inr ge_length ↦
      let r = get_file_internal-Reads k i s total h in
      let past = path_at-end total i (ltb-false _ _ ge_length) in
      rw (get_all_from, r.0, past) (refl, (r.1).1 (ltb-false _ _ ge_length))
]

-- The answer, without the state that is left.
abbrev pub answer : {A : Type 0} → Option (Result A × DeltaMultiFileList) → Option (Result A)
answer none = none
answer (some (r, s)) = some r

finish_all-Ends :
    {A : Type 0} (f : DeltaMultiFileList → A) (total : List Str) (a : A)
    → (o : Option (Result (Unit {0}) × DeltaMultiFileList))
    → ((s : DeltaMultiFileList) → s.resolved_files ≡ total → f s ≡ a)
    → Ends total o
    → answer (finish_all f o) ≡ some (ok a)
finish_all-Ends f total a none g h = absurd h
finish_all-Ends f total a (some (r, s)) g h =
    ap (λ x. some (map_ok (λ _. f s) x)) (h.0) ∙ ap (λ x. some (ok x)) (g s (h.1))

-- `GetAllFiles` on a list that is ready, whose batches the kernel all reads without an error and whose
-- paths are not empty, returns all files in order, where the loop may run once for each file and
-- once more.
pub get_all_files-total :
    (k : Kernel) (fuel : ℕ) (s : DeltaMultiFileList) (total : List Str)
    → IsListing k total s
    → All IsNamed total
    → length total < fuel
    → answer (get_all_files k fuel s) ≡ some (ok total)
unfolding get_all_files
get_all_files-total k fuel s total h n l =
    finish_all-Ends (λ t. t.resolved_files) total total _ (λ t q. q)
      (get_all_from-Ends k fuel (length s.resolved_files) s total h n (resolved_bound k s total h)
        (omega arith))

-- Under the same conditions, `GetTotalFileCount` returns the number of all files.
pub get_total_file_count-length :
    (k : Kernel) (fuel : ℕ) (s : DeltaMultiFileList) (total : List Str)
    → IsListing k total s
    → All IsNamed total
    → length total < fuel
    → answer (get_total_file_count k fuel s) ≡ some (ok (length total))
unfolding get_total_file_count
get_total_file_count-length k fuel s total h n l =
    finish_all-Ends (λ t. length t.resolved_files) total (length total) _ (λ t q. ap length q)
      (get_all_from-Ends k fuel (length s.resolved_files) s total h n (resolved_bound k s total h)
        (omega arith))
