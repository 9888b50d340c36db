-- ===== src/FileList/Retry.antt =====
-- A second initialisation of the scan, after a failure.
use duckdb_delta.Prelude.{
  ◌≡◌, ap, ◌++◌, Bool, true, false, List, [], ◌∷◌, Str, Result, ok, err, arith, length,
  length-append,
}
use duckdb_delta.FileList.State.{DeltaMultiFileList}
use duckdb_delta.FileList.Init.{load_partitions, find_partition_ids}

abbrev pub failed : {A : Type 0} → Result A → Bool
failed (ok a) = false
failed (err e) = true

-- Where the partitions of a table, one at least, were loaded once into a list that had none, the next
-- attempt to load them throws.
pub load_partitions_again :
    (p : Str) (ps : List Str) (s : DeltaMultiFileList)
    → s.partition_ids ≡ []
    → (load_partitions (p ∷ ps) s).0 ≡ ok tt
    → failed ((load_partitions (p ∷ ps) ((load_partitions (p ∷ ps) s).1)).0) ≡ true
unfolding load_partitions
load_partitions_again p ps s e h =
    let found = find_partition_ids (p ∷ ps) s.columns in
    ground (
      arith,
      ap length e,
      length-append s.partition_ids found,
      length-append (s.partition_ids ++ found) found,
    )
