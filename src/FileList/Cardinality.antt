-- ===== src/FileList/Cardinality.antt =====
-- The estimate of `GetCardinality`, against the sum of the record counts that are known.
use native.Mathlib.Nat.{zero-add}
use duckdb_delta.Prelude.{
  ℕ, ◌+◌, ◌%◌, ◌^◌, ◌<◌, ◌==◌, ◌≡◌, refl, ap, Bool, true, false, not, ◌||◌, Option, none, some,
  List, [], ◌∷◌, Str, Result, ok, All, length, if◌then◌else◌, arith, Bool-cases, inl, inr, ◌∙◌,
}
use duckdb_delta.FileList.State.{invalid_index, DeltaFileMetaData, DeltaMultiFileList, Kernel}
use duckdb_delta.FileList.Expand.{
  get_total_file_count, sum_cardinality, cardinality_of, get_cardinality,
}
use duckdb_delta.FileList.Listing.{IsListing, resolved_bound}
use duckdb_delta.FileList.All.{IsNamed, Ends, get_all_from-Ends}

abbrev is_known : DeltaFileMetaData → Bool
is_known m = not (m.cardinality == invalid_index)

unfoldable pub any_known : List DeltaFileMetaData → Bool
any_known [] = false
any_known (m ∷ ms) = is_known m || any_known ms

-- The sum of the record counts that are known, without wrap-around.
unfoldable pub known_sum : List DeltaFileMetaData → ℕ
known_sum [] = 0
known_sum (m ∷ ms) = if is_known m then m.cardinality + known_sum ms else known_sum ms

-- What the planner is to be told of the files of a table.
unfoldable pub statistics : ℕ → List DeltaFileMetaData → Option (ℕ × ℕ)
unfolding any_known known_sum
statistics files ms =
    if files == 0
    then some (0, 0)
    else if any_known ms
    then some (known_sum ms % 2 ^ 64, known_sum ms % 2 ^ 64)
    else none

or_true : (b : Bool) → (b || true) ≡ true
or_true true = refl
or_true false = refl

sum_cardinality-known_sum :
    (total : ℕ) (any : Bool) (ms : List DeltaFileMetaData)
    → total < 2 ^ 64
    → sum_cardinality total any ms ≡ ((total + known_sum ms) % 2 ^ 64, any || any_known ms)
unfolding sum_cardinality known_sum any_known
sum_cardinality-known_sum total true [] h = ap (λ (n : ℕ). (n, true)) (omega arith)
sum_cardinality-known_sum total false [] h = ap (λ (n : ℕ). (n, false)) (omega arith)
sum_cardinality-known_sum total any (m ∷ ms) h =
    elim (Bool-cases (m.cardinality == invalid_index)) [
      | inl e ↦ rw e (sum_cardinality-known_sum total any ms h)
      | inr e ↦
          rw (e, or_true any)
            (sum_cardinality-known_sum ((total + m.cardinality) % 2 ^ 64) true ms (omega arith)
              ∙ ap (λ (n : ℕ). (n, true)) (omega arith))
    ]

cardinality_of-statistics :
    (n : ℕ) (t : DeltaMultiFileList) → cardinality_of n t ≡ statistics n t.metadata
unfolding cardinality_of statistics
cardinality_of-statistics n t = elim (Bool-cases (n == 0)) [
  | inl e ↦ rw e refl
  | inr e ↦
      rw
        (
          e,
          sum_cardinality-known_sum 0 false t.metadata (omega arith),
          zero-add (known_sum t.metadata),
        )
        (elim (Bool-cases (any_known t.metadata)) [ inl k ↦ rw k refl | inr k ↦ rw k refl ])
]

-- Under the conditions on which the loop ends with everything read.
Ends-read :
    (total : List Str) (o : Option (Result (Unit {0}) × DeltaMultiFileList))
    → Ends total o
    → (t : DeltaMultiFileList) × (o ≡ some (ok tt, t)) × (t.resolved_files ≡ total)
Ends-read total none h = absurd h
Ends-read total (some (r, t)) h = (t, ap (λ x. some (x, t)) (h.0), h.1)

-- `GetCardinality` on a list that is ready, whose batches the kernel all reads without an error and whose
-- paths are not empty, reads all files first, where the loop may run once for each file and once more. Its
-- estimate, which is the maximum too, is then the sum of the record counts that are known, modulo 2^64: 0
-- where there is no file, and no estimate where there are files and no count is known.
pub get_cardinality-statistics :
    (k : Kernel) (fuel : ℕ) (s : DeltaMultiFileList) (total : List Str)
    → IsListing k total s
    → All IsNamed total
    → length total < fuel
    → (t : DeltaMultiFileList) × (get_cardinality k fuel s
        ≡ some (ok (statistics (length total) t.metadata), t))
      × (t.resolved_files ≡ total)
unfolding get_cardinality get_total_file_count
get_cardinality-statistics k fuel s total h n l =
    let (t, e, r) = Ends-read total _ (
      get_all_from-Ends k fuel (length s.resolved_files) s total h n (resolved_bound k s total h)
        (omega arith)) in
    (
      t,
      rw e (
          ap (λ c. some (ok c, t))
            (ap (λ (x : List Str). cardinality_of (length x) t) r
              ∙ cardinality_of-statistics (length total) t)),
      r,
    )
