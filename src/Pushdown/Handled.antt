-- ===== src/Pushdown/Handled.antt =====
-- The pushdowns that DuckDB asks for one after another, with the reports that are made of them.
use duckdb_delta.Prelude.{
  ℕ, ◌≡◌, ◌⊎◌, ◌||◌, refl, ap, ◌∙◌, inl, inr, Bool-cases, false, Option, none, some, List, [], ◌∷◌,
  Str, codes, is_empty, All, Result, Result-cases, ok, err, map, arith,
}
use duckdb_delta.Types.{Fields}
use duckdb_delta.Paths.{FileSystem}
use duckdb_delta.FileList.State.{DeltaMultiFileList, Kernel}
use duckdb_delta.Predicate.{PredicateKernel, PredicateVisitor}
use duckdb_delta.Predicate.Semantics.{Row, Values, Meaning, IsMeaning}
use duckdb_delta.Pushdown.{
  DeltaFilterPushdownMode, FilterLibrary, get_pushdown_mode, push_constant, push_dynamic,
}
use duckdb_delta.Pushdown.Report.{
  Reporting, Report, ExtraInfo, is_asked, explain_if, filter_strings, report_with,
  report_filter_pushdown,
}
use duckdb_delta.Pushdown.Handler.{
  Handled, report_new, complex_filter_pushdown, dynamic_filter_pushdown,
}
use duckdb_delta.Pushdown.Sound.{AreColumns, SatisfiesSet, IsPush, Scans}
use duckdb_delta.Pushdown.Requests.{
  Request, complex, dynamic, or_same, push_request, push_requests, SatisfiesRequest,
  push_requests-Scans,
}

-- The list that DuckDB goes on with; a null pointer leaves the list, as the report has left it.
abbrev next_list : Handled → Option (Result DeltaMultiFileList)
next_list none = none
next_list (some (err e, s)) = some (err e)
next_list (some (ok (none, report), s)) = some (ok s)
next_list (some (ok (some t, report), s)) = some (ok t)

-- A request, and what is to be reported of it.
abbrev pub Reportable : Type 0
Reportable = Request × Reporting

module _ (lib : FilterLibrary) (files : FileSystem) (k : Kernel) (fuel : ℕ)
    (option : Option Str) where
  unfoldable pub handle : Reportable → DeltaMultiFileList → Option (Result DeltaMultiFileList)
  unfolding complex_filter_pushdown dynamic_filter_pushdown
  handle (complex filters, r) s =
      next_list (complex_filter_pushdown lib files k fuel r option filters s)
  handle (dynamic ids filters, r) s =
      next_list (dynamic_filter_pushdown lib files k fuel r option ids filters s)

  abbrev and_then :
      (DeltaMultiFileList → Option (Result DeltaMultiFileList))
      → Option (Result DeltaMultiFileList)
      → Option (Result DeltaMultiFileList)
  and_then next none = none
  and_then next (some (err e)) = some (err e)
  and_then next (some (ok s)) = next s

  unfoldable pub handle_all :
      List Reportable → DeltaMultiFileList → Option (Result DeltaMultiFileList)
  unfolding handle
  handle_all [] s = some (ok s)
  handle_all (r ∷ rs) s = and_then (handle_all rs) (handle r s)

-- The report does not count files: nobody asks for it, or the setting is off.
abbrev pub CountsNothing : Reporting → Type 0
CountsNothing r =
    ((is_asked r.explain || r.should_log) ≡ false)
    ⊎ (r.setting (codes "delta_scan_explain_files_filtered") ≡ some false)

explain_if-none :
    (filters : List Str) (e : Option ExtraInfo)
    → (o : Option ExtraInfo) × (explain_if none filters e ≡ ok o)
explain_if-none filters none = (none, refl)
explain_if-none filters (some i) = (_, refl)

report_with-none :
    (r : Reporting) (s t : DeltaMultiFileList)
    → (report : Report) × (report_with r none s t ≡ ok report)
unfolding report_with
report_with-none r s t =
    let (o, e) = explain_if-none (filter_strings r.to_string s.columns t.table_filters) r.explain in
    rw e (_, refl)

-- Such a report succeeds and touches neither list.
report-CountsNothing :
    (k : Kernel) (fuel : ℕ) (r : Reporting) (s t : DeltaMultiFileList)
    → CountsNothing r
    → (report : Report) × (report_filter_pushdown k fuel r s t ≡ some (ok report, (s, t)))
unfolding report_filter_pushdown
report-CountsNothing k fuel r s t (inl h) = ((none, none), rw h refl)
report-CountsNothing k fuel r s t (inr h) = elim (Bool-cases (is_asked r.explain || r.should_log)) [
  | inr n ↦ ((none, none), rw n refl)
  | inl y ↦
      let (report, e) = report_with-none r s t in (report, rw (y, h) (ap (λ z. some (z, (s, t))) e))
]

report_new-next_list :
    (k : Kernel) (fuel : ℕ) (r : Reporting) (s : DeltaMultiFileList)
    (o : Result (Option DeltaMultiFileList))
    → CountsNothing r
    → next_list (report_new k fuel r s o) ≡ some (or_same s o)
report_new-next_list k fuel r s (err e) h = refl
report_new-next_list k fuel r s (ok none) h = refl
report_new-next_list k fuel r s (ok (some t)) h =
    let (report, e) = report-CountsNothing k fuel r s t h in rw e refl

-- Also where EXPLAIN is not told.
unexplained :
    (r : Reporting) (type : Str)
    → CountsNothing r
    → CountsNothing (record r { explain = none; pushdown_type = type })
unexplained r type (inl h) = inl (ground (arith, h))
unexplained r type (inr h) = inr h

module _ (lib : FilterLibrary) (files : FileSystem) (k : Kernel) (fuel : ℕ)
    (option : Option Str) where
  handle-push_request :
      (q : Request) (r : Reporting) (s : DeltaMultiFileList)
      → CountsNothing r
      → handle lib files k fuel option (q, r) s ≡ some (push_request lib files option q s)
  unfolding handle complex_filter_pushdown dynamic_filter_pushdown push_request
  handle-push_request (complex filters) r s h =
      report_new-next_list k fuel (record r { pushdown_type = codes "constant" }) s
        (push_constant lib files option filters s) h
  handle-push_request (dynamic ids filters) r s h =
      report_new-next_list k fuel (record r { explain = none; pushdown_type = codes "dynamic" }) s
        (push_dynamic lib files option ids filters s) (unexplained r (codes "dynamic") h)

  pub handle_all-push_requests :
      (rs : List Reportable) (s : DeltaMultiFileList)
      → All (λ (q : Reportable). CountsNothing (q.1)) rs
      → handle_all lib files k fuel option rs s
        ≡ some (push_requests lib files option (map (λ (q : Reportable). q.0) rs) s)
  unfolding handle_all push_requests
  handle_all-push_requests [] s h = refl
  handle_all-push_requests ((q, r) ∷ rs) s (c, h) =
      elim (Result-cases (push_request lib files option q s)) [
        | inl (t, e) ↦ rw (handle-push_request q r s c, e) (handle_all-push_requests rs t h)
        | inr (d, e) ↦ rw (handle-push_request q r s c, e) refl
      ]

-- What is asked of the row and of the reports.
abbrev pub IsFine : Values → Row → Fields → Reportable → Type 0
IsFine values row columns (q, r) = SatisfiesRequest values row columns q × CountsNothing r

IsFine-requests :
    (values : Values) (row : Row) (columns : Fields) (rs : List Reportable)
    → All (IsFine values row columns) rs
    → All (SatisfiesRequest values row columns) (map (λ (q : Reportable). q.0) rs)
      × All (λ (q : Reportable). CountsNothing (q.1)) rs
IsFine-requests values row columns [] h = (tt, tt)
IsFine-requests values row columns ((q, r) ∷ rs) ((x, y), h) =
    let (a, b) = IsFine-requests values row columns rs h in ((x, a), (y, b))

-- `ComplexFilterPushdown` and `DynamicFilterPushdown` in any order, each of the list that the last one
-- gave. The mode is known, the list's path is not empty, its filters are on its columns, each dynamic filter
-- is at the place of a column that is read, and a row satisfies the filters of the list and of all pushdowns.
-- No report counts files: the logger and EXPLAIN do not ask for it, or the setting
-- `delta_scan_explain_files_filtered` is off. Then the pushdowns, with their reports, end in a list
-- without an error, and the predicate that the kernel is given for it is true of the row. `PushFilter` and
-- the kernel's functions do what their names say.
pub handle_all_sound :
    {S : Type 0} (pk : PredicateKernel S) (values : Values) (m : Meaning S)
    (laws : IsMeaning pk values m) (row : Row) (lib : FilterLibrary) (files : FileSystem)
    (k : Kernel) (fuel : ℕ) (option : Option Str) (mode : DeltaFilterPushdownMode)
    (rs : List Reportable) (s : DeltaMultiFileList) (v : PredicateVisitor S)
    → IsPush lib values row s.columns
    → get_pushdown_mode option ≡ ok mode
    → is_empty s.path ≡ false
    → AreColumns s.columns s.table_filters
    → SatisfiesSet values row s.columns s.table_filters
    → All (IsFine values row s.columns) rs
    → (t : DeltaMultiFileList) × ((handle_all lib files k fuel option rs s ≡ some (ok t))
        × Scans pk m row v t)
handle_all_sound pk values m laws row lib files k fuel option mode rs s v push known named a x h =
    let (satisfied, quiet) = IsFine-requests values row s.columns rs h in
    let (t, (e, scans)) =
      push_requests-Scans pk values m laws row lib files option mode
        (map (λ (q : Reportable). q.0) rs) s v push known named a x satisfied in
    (t, (handle_all-push_requests lib files k fuel option rs s quiet ∙ ap some e, scans))
