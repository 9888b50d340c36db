-- ===== src/Pushdown/Report.antt =====
-- `ReportFilterPushdown`: what EXPLAIN and the log are told of a pushdown.
use duckdb_delta.Prelude.{
  ℕ, zero, suc, ◌-◌, ◌==◌, ◌||◌, ◌++◌, Bool, true, false, leb, Option, none, some, List, [], ◌∷◌,
  Str, codes, Result, ok, err, throw, internal, length, take, ◌>>=◌, if◌then◌else◌,
}
use duckdb_delta.Types.{Fields, end, field}
use duckdb_delta.Filters.{TableFilter, TableFilterSet}
use duckdb_delta.FileList.State.{DeltaMultiFileList, Kernel}
use duckdb_delta.FileList.Init.{ensure_scan_initialized}
use duckdb_delta.FileList.Expand.{get_total_file_count}

-- `ExtraOperatorInfo`; the numbers are those that are valid.
pub record ExtraInfo : Type 0 where
  pub total_files : Option ℕ
  pub filtered_files : Option ℕ
  pub file_filters : Str

-- The structure that is logged; the counts only where they were asked for.
pub record LogEntry : Type 0 where
  pub path : Str
  pub type : Str
  pub filters_before : List Str
  pub filters_after : List Str
  pub files : Option (ℕ × ℕ)

abbrev pub set_total : ℕ → Option ℕ → ExtraInfo → Result ExtraInfo
set_total old_total none info = ok (record info { total_files = some old_total })
set_total old_total (some t) info =
    if t == old_total
    then ok info
    else throw internal (
        codes
          "Error encountered when analyzing filtered out files for delta scan: total_files inconsistent!")

abbrev pub set_filtered : ℕ → Option ℕ → ExtraInfo → Result ExtraInfo
set_filtered new_total none info = ok (record info { filtered_files = some new_total })
set_filtered new_total (some n) info =
    if leb new_total n
    then ok (record info { filtered_files = some new_total })
    else throw internal (
        codes
          "Error encountered when analyzing filtered out files for delta scan: filtered_files inconsistent!")

-- The counts for EXPLAIN.
unfoldable pub report_counts : ℕ → ℕ → ExtraInfo → Result ExtraInfo
report_counts old_total new_total info = do
  i ← set_total old_total info.total_files info
  set_filtered new_total i.filtered_files i

abbrev name_at : Fields → ℕ → Option Str
name_at end i = none
name_at (field n t fs) zero = some n
name_at (field n t fs) (suc i) = name_at fs i

-- The filters on columns that have a name, as they are printed.
unfoldable pub filter_strings : (TableFilter → Str → Str) → Fields → TableFilterSet → List Str
filter_strings to_string names [] = []
filter_strings to_string names ((i, f) ∷ fs) =
    let rest = filter_strings to_string names fs in
    elim (name_at names i) [ none ↦ rest | some n ↦ to_string f n ∷ rest ]

abbrev lines : List Str → Str
lines [] = []
lines (s ∷ ss) = s ++ (10 ∷ lines ss)

-- One line for each filter, without the last end of line.
unfoldable pub files_string : List Str → Str
files_string filters = take (length (lines filters) - 1) (lines filters)

abbrev pub Counted : Type 0
Counted = Option (Result (ℕ × ℕ) × (DeltaMultiFileList × DeltaMultiFileList))

abbrev with_old :
    ℕ → DeltaMultiFileList → Option (Result ℕ × DeltaMultiFileList) → DeltaMultiFileList → Counted
with_old old_total s none new_list = none
with_old old_total s (some (ok new_total, t)) new_list = some (ok (old_total, new_total), (s, t))
with_old old_total s (some (err e, t)) new_list = some (err e, (s, t))

abbrev count_new :
    Kernel → ℕ → Option (Result ℕ × DeltaMultiFileList) → DeltaMultiFileList → Counted
count_new k fuel none new_list = none
count_new k fuel (some (err e, s)) new_list = some (err e, (s, new_list))
count_new k fuel (some (ok old_total, s)) new_list =
    with_old old_total s (get_total_file_count k fuel new_list) new_list

abbrev count_old :
    Kernel → ℕ → Result (Unit {0}) × DeltaMultiFileList → Option (Result ℕ × DeltaMultiFileList)
count_old k fuel (ok u, s) = get_total_file_count k fuel s
count_old k fuel (err e, s) = some (err e, s)

-- The files before, where the scan is initialised first, and after; `none`: the fuel ran out.
unfoldable pub count_both : Kernel → ℕ → DeltaMultiFileList → DeltaMultiFileList → Counted
unfolding ensure_scan_initialized get_total_file_count
count_both k fuel s new_list =
    count_new k fuel (count_old k fuel (ensure_scan_initialized k s)) new_list

-- What is to be reported, and to whom: the information for EXPLAIN where the profiler is enabled, and
-- whether the logger takes the entry; `TryGetCurrentSetting` as a Boolean, `none` where there is no such
-- setting.
pub record Reporting : Type 0 where
  pub explain : Option ExtraInfo
  pub should_log : Bool
  pub setting : Str → Option Bool
  pub to_string : TableFilter → Str → Str
  pub pushdown_type : Str

abbrev pub Report : Type 0
Report = Option ExtraInfo × Option LogEntry

abbrev explain_with : Option (ℕ × ℕ) → List Str → ExtraInfo → Result ExtraInfo
explain_with none filters info = ok (record info { file_filters = files_string filters })
explain_with (some (old_total, new_total)) filters info =
    report_counts old_total new_total info >>= λ (i : ExtraInfo).
    ok (record i { file_filters = files_string filters })

abbrev pub explain_if : Option (ℕ × ℕ) → List Str → Option ExtraInfo → Result (Option ExtraInfo)
explain_if counts filters none = ok none
explain_if counts filters (some info) =
    explain_with counts filters info >>= λ (i : ExtraInfo). ok (some i)

-- The report, with the counts if they were asked for.
unfoldable pub report_with :
    Reporting → Option (ℕ × ℕ) → DeltaMultiFileList → DeltaMultiFileList → Result Report
unfolding report_counts filter_strings files_string
report_with r counts s new_list = do
  explained ←
      explain_if counts (filter_strings r.to_string s.columns new_list.table_filters) r.explain
  ok (
    explained,
    if r.should_log
        then some (record {
          path = s.path;
          type = r.pushdown_type;
          filters_before = filter_strings r.to_string s.columns s.table_filters;
          filters_after = filter_strings r.to_string s.columns new_list.table_filters;
          files = counts;
        })
        else none,
  )

abbrev pub Reported : Type 0
Reported = Option (Result Report × (DeltaMultiFileList × DeltaMultiFileList))

abbrev pub report_counted : Reporting → Counted → Reported
report_counted r none = none
report_counted r (some (err e, (s, t))) = some (err e, (s, t))
report_counted r (some (ok counts, (s, t))) = some (report_with r (some counts) s t, (s, t))

abbrev pub report_by_setting :
    Option Bool → Kernel → ℕ → Reporting → DeltaMultiFileList → DeltaMultiFileList → Reported
report_by_setting none k fuel r s t =
    some
      (throw internal (codes "Failed to find 'delta_scan_explain_files_filtered' option!"), (s, t))
report_by_setting (some false) k fuel r s t = some (report_with r none s t, (s, t))
report_by_setting (some true) k fuel r s t = report_counted r (count_both k fuel s t)

abbrev pub is_asked : Option ExtraInfo → Bool
is_asked none = false
is_asked (some i) = true

-- `ReportFilterPushdown`, of a list and the new one.
unfoldable pub report_filter_pushdown :
    Kernel → ℕ → Reporting → DeltaMultiFileList → DeltaMultiFileList → Reported
unfolding report_with count_both
report_filter_pushdown k fuel r s new_list =
    if is_asked r.explain || r.should_log
    then report_by_setting (r.setting (codes "delta_scan_explain_files_filtered")) k fuel r s
        new_list
    else some (ok (none, none), (s, new_list))
