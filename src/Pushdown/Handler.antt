-- ===== src/Pushdown/Handler.antt =====
-- `ComplexFilterPushdown` and `DynamicFilterPushdown` with the report that they make of a new list.
use duckdb_delta.Prelude.{ℕ, Option, none, some, List, Str, codes, Result, ok, err}
use duckdb_delta.Paths.{FileSystem}
use duckdb_delta.Filters.{TableFilterSet}
use duckdb_delta.FileList.State.{DeltaMultiFileList, Kernel}
use duckdb_delta.Pushdown.{FilterLibrary, push_constant, push_dynamic}
use duckdb_delta.Pushdown.Report.{Reporting, Report, Reported, report_filter_pushdown}

-- The new list, a null pointer being `none`, and what was reported; then the list as it is left. The report
-- may open and expand both lists. `none` on the outside: the fuel ran out.
abbrev pub Handled : Type 0
Handled = Option (Result (Option DeltaMultiFileList × Report) × DeltaMultiFileList)

abbrev after_report : Reported → Handled
after_report none = none
after_report (some (err e, (s, t))) = some (err e, s)
after_report (some (ok report, (s, t))) = some (ok (some t, report), s)

abbrev pub report_new :
    Kernel → ℕ → Reporting → DeltaMultiFileList → Result (Option DeltaMultiFileList) → Handled
report_new k fuel r s (err e) = some (err e, s)
report_new k fuel r s (ok none) = some (ok (none, (none, none)), s)
report_new k fuel r s (ok (some t)) = after_report (report_filter_pushdown k fuel r s t)

-- `ComplexFilterPushdown` and its report.
unfoldable pub complex_filter_pushdown :
    FilterLibrary
    → FileSystem
    → Kernel
    → ℕ
    → Reporting
    → Option Str
    → TableFilterSet
    → DeltaMultiFileList
    → Handled
unfolding report_filter_pushdown push_constant
complex_filter_pushdown lib fs k fuel r option filter_set s =
    report_new k fuel (record r { pushdown_type = codes "constant" }) s
      (push_constant lib fs option filter_set s)

-- `DynamicFilterPushdown` and its report, which EXPLAIN is not told of.
unfoldable pub dynamic_filter_pushdown :
    FilterLibrary
    → FileSystem
    → Kernel
    → ℕ
    → Reporting
    → Option Str
    → List ℕ
    → TableFilterSet
    → DeltaMultiFileList
    → Handled
unfolding report_filter_pushdown push_dynamic
dynamic_filter_pushdown lib fs k fuel r option column_ids filters s =
    report_new k fuel (record r { explain = none; pushdown_type = codes "dynamic" }) s
      (push_dynamic lib fs option column_ids filters s)
