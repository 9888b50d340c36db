-- ===== src/Pushdown/Snapshot.antt =====
-- A list with filters pushed down reads the snapshot of the list that it was made from.
use duckdb_delta.Prelude.{ℕ, ◌≡◌, Option, none, some, Str, ok, Result}
use duckdb_delta.Paths.{FileSystem, to_delta_path}
use duckdb_delta.Filters.{TableFilterSet}
use duckdb_delta.FileList.State.{DeltaMultiFileList, Kernel, create}
use duckdb_delta.FileList.Init.{ensure_snapshot_initialized, initialize_snapshot, open_snapshot}
use duckdb_delta.FileList.Expand.{get_version}
use duckdb_delta.Pushdown.{FilterLibrary, pushdown_internal}

abbrev pub version_of : Kernel → Option DeltaMultiFileList → Option (Result ℕ)
version_of k none = none
version_of k (some s) = some ((get_version k s).0)

-- Where a list has opened a snapshot, the list that pushdown makes of it reports the version of this
-- snapshot, whatever the kernel would open now, if the engine can be created again.
pub pushdown_internal-version :
    (lib : FilterLibrary) (fs : FileSystem) (k : Kernel) (filters : TableFilterSet)
    (s : DeltaMultiFileList) (path : Str) (h engine : ℕ)
    → s.snapshot ≡ some h
    → to_delta_path fs s.path ≡ some path
    → k.create_engine path ≡ ok engine
    → version_of k (pushdown_internal lib fs filters s) ≡ some (ok (k.snapshot_version h))
unfolding pushdown_internal get_version ensure_snapshot_initialized initialize_snapshot
    open_snapshot create
pushdown_internal-version lib fs k filters s path h engine q p e = simp (p, e, q)
