-- ===== src/Pushdown/Tests.antt =====
-- The theorems on pushdown at examples.
use duckdb_delta.Prelude.{
  ◌≡◌, none, throw, internal, ◌↔◌, refl, false, some, [], ◌∷◌, codes, lower, ok, ◌++◌,
}
use duckdb_delta.Paths.{FileSystem, to_delta_path}
use duckdb_delta.Filters.{is_not_null}
use duckdb_delta.FileList.State.{DeltaMultiFileList, create}
use duckdb_delta.Fixtures.{kernel}
use duckdb_delta.Pushdown.{FilterLibrary, constant_only, from_string, to_string, pushdown_internal}
use duckdb_delta.Pushdown.Modes.{from_string_iff}
use duckdb_delta.Pushdown.Report.{ExtraInfo, report_counts}
use duckdb_delta.Pushdown.Reported.{report_counts_twice}
use duckdb_delta.Pushdown.Snapshot.{version_of, pushdown_internal-version}

from_string_iff_runs :
    (from_string (codes "Constant_Only") ≡ ok constant_only)
    ↔ (lower (codes "Constant_Only") ≡ to_string constant_only)
from_string_iff_runs = from_string_iff (codes "Constant_Only") constant_only

abbrev library : FilterLibrary
library = record { push_filter = λ i f fs. (i, f) ∷ fs; equals = λ f g. false }

abbrev files : FileSystem
files = record { working_directory = codes "/"; join_path = λ a b. a ++ b }

abbrev opened : DeltaMultiFileList
opened = record (create (codes "d/")) { snapshot = some 8 }

pushdown_internal-version_example :
    version_of kernel (pushdown_internal library files ((0, is_not_null) ∷ []) opened) ≡ some (ok 5)
unfolding to_delta_path create
pushdown_internal-version_example =
    pushdown_internal-version library files kernel ((0, is_not_null) ∷ []) opened (codes "d/") 8 1
      refl refl refl

abbrev reported : ExtraInfo
reported = record { total_files = some 3; filtered_files = some 2; file_filters = [] }

-- Three files, of which the first pushdown keeps two and the second keeps one.
report_counts_twice_example :
    (reported.total_files ≡ some 3)
    × (reported.filtered_files ≡ some 2)
    × (report_counts 2 1 reported
        ≡ throw internal (
            codes
              "Error encountered when analyzing filtered out files for delta scan: total_files inconsistent!"))
unfolding report_counts
report_counts_twice_example =
    report_counts_twice 3 2 1
      (record { total_files = none; filtered_files = none; file_filters = [] }) reported refl
