-- ===== src/Pushdown/Skipping.antt =====
-- Data skipping from end to end: pushdowns, the scan that the kernel makes for the predicate, and the
-- files that the list then has.
use mathlib.Core.List.{Memᴰ}
use mathlib.Core.List.Memᴰ
use mathlib.Core.List.Memᴰ.{head, tail}
use mathlib.Core.Path.{subst}
use duckdb_delta.Prelude.{
  ℕ, ◌<◌, ◌≡◌, ◌⊎◌, ◌++◌, refl, sym, ap, ◌∙◌, inl, inr, true, false, Option, some, List, [], ◌∷◌,
  Str, ok, All, length,
}
use duckdb_delta.Errors.{try_unpack_result}
use duckdb_delta.Types.{Fields}
use duckdb_delta.Paths.{FileSystem, resolve_file}
use duckdb_delta.Filters.{TableFilterSet}
use duckdb_delta.FileList.State.{ScanFile, Batch, DeltaMultiFileList, Kernel, create}
use duckdb_delta.FileList.Init.{ensure_scan_initialized}
use duckdb_delta.FileList.Expand.{get_all_files}
use duckdb_delta.FileList.Frame.{paths_of}
use duckdb_delta.FileList.Listing.{AreGood, IsReady, IsListing, some_left, listing}
use duckdb_delta.FileList.All.{IsNamed, answer, get_all_files-total}
use duckdb_delta.FileList.Opened.{Post-of, IsStarted, ensure_scan-IsStarted}
use duckdb_delta.FileList.Started.{get_all_files-after}
use duckdb_delta.Predicate.{
  PredicateKernel, PredicateVisitor, ColumnFilters, column_filters, visit_predicate,
}
use duckdb_delta.Predicate.Semantics.{Row, Truth, Values, Meaning, IsMeaning}
use duckdb_delta.Pushdown.{DeltaFilterPushdownMode, FilterLibrary, get_pushdown_mode, filtered}
use duckdb_delta.Pushdown.Sound.{AreColumns, SatisfiesSet, IsPush, IsPushed, Scans, IsPushed-Scans}
use duckdb_delta.Pushdown.Requests.{Request, SatisfiesRequest, push_requests, push_requests-IsKept}

-- The kernel reports the file in one of the batches.
unfoldable pub IsReported : Str → List Batch → Type 0
IsReported path [] = ⊥
IsReported path (b ∷ bs) =
    ((f : ScanFile) × ((f.path ≡ path) × Memᴰ f b.files)) ⊎ IsReported path bs

-- The scan that the kernel makes with a predicate leaves out no file of the snapshot that has a row of which
-- the predicate is true; `Holds h path row` is that a file of the snapshot `h` has the row.
pub record IsSkipping {S : Type 0} (k : Kernel) (pk : PredicateKernel S) (m : Meaning S)
    (v : PredicateVisitor S) (Holds : ℕ → Str → Row → Type 0) : Type 0 where
  pub reported :
      (h engine scan : ℕ) (columns : Fields) (filters : TableFilterSet) (l : ColumnFilters)
      (p : Row → Truth) (bs : List Batch) (path : Str) (row : Row)
      → column_filters columns filters [] ≡ ok l
      → (let r = visit_predicate pk l v in m.truth_of ((r.1).state) (r.0) ≡ some p)
      → try_unpack_result ((k.open_scan h engine columns filters).0) ≡ ok scan
      → try_unpack_result (k.iter_init engine scan) ≡ ok bs
      → p row ≡ some true
      → Holds h path row
      → IsReported path bs

paths_of-mem :
    (k : Kernel) (root : Str) (f : ScanFile) (fs : List ScanFile)
    → Memᴰ f fs
    → Memᴰ (resolve_file k.garbage root f.path) (paths_of k root fs)
unfolding paths_of
paths_of-mem k root f [] d = elim d [ ]
paths_of-mem k root f (g ∷ fs) (head e) =
    Memᴰ.head (ap (λ (x : ScanFile). resolve_file k.garbage root x.path) e)
paths_of-mem k root f (g ∷ fs) (tail d) = Memᴰ.tail (paths_of-mem k root f fs d)

listing-mem :
    (k : Kernel) (root path : Str) (bs : List Batch)
    → IsReported path bs
    → Memᴰ (resolve_file k.garbage root path) (listing k root bs)
unfolding listing IsReported
listing-mem k root path [] h = absurd h
listing-mem k root path (b ∷ bs) (inl (f, (e, d))) = Memᴰ.append_left (listing k root bs) (
    subst (λ p. Memᴰ (resolve_file k.garbage root p) (paths_of k root b.files)) e
      (paths_of-mem k root f b.files d))
listing-mem k root path (b ∷ bs) (inr h) =
    Memᴰ.append_right (paths_of k root b.files) (listing-mem k root path bs h)

-- The snapshot `h` is open, and the list has not been scanned.
abbrev pub IsFresh : ℕ → DeltaMultiFileList → Type 0
IsFresh h s =
    (s.snapshot ≡ some h)
    × ((s.initialized_scan ≡ false) × ((s.resolved_files ≡ []) × (s.files_exhausted ≡ false)))

filtered-IsFresh :
    (lib : FilterLibrary) (h : ℕ) (filters : TableFilterSet) (s : DeltaMultiFileList) (path : Str)
    → IsFresh h s
    → IsFresh h (filtered lib filters s path)
unfolding create
filtered-IsFresh lib h filters s path f = (f.0, (refl, (refl, refl)))

module _ (k : Kernel) (h : ℕ) (t u : DeltaMultiFileList) (fresh : IsFresh h t)
    (started : IsStarted k h t u) where
  started-IsReady : IsReady u
  started-IsReady =
      let (w, (unread, (o, y))) = started in (o.initialized_snapshot ∙ (unread.1).1, y)

  started-path : u.path ≡ t.path
  started-path = let (w, (unread, (o, y))) = started in o.path ∙ (unread.0).path

  started-nothing : u.resolved_files ≡ []
  started-nothing =
      let (w, (unread, (o, y))) = started in
      o.resolved_files ∙ (unread.0).resolved_files ∙ ((fresh.1).1).0

  started-IsListing :
      AreGood k u.scan_data_iterator u → IsListing k (listing k u.path u.scan_data_iterator) u
  started-IsListing g =
      let (w, (unread, (o, y))) = started in
      some_left u.scan_data_iterator started-IsReady
        (o.files_exhausted ∙ (unread.0).files_exhausted ∙ ((fresh.1).1).1) refl g
        (ap (λ l. l ++ listing k u.path u.scan_data_iterator) started-nothing)

  started-IsReported :
      {S : Type 0} (pk : PredicateKernel S) (m : Meaning S) (v : PredicateVisitor S)
      (Holds : ℕ → Str → Row → Type 0) (path : Str) (row : Row)
      → IsSkipping k pk m v Holds
      → Scans pk m row v t
      → Holds h path row
      → IsReported path u.scan_data_iterator
  started-IsReported pk m v Holds path row skipping (c, (l, made, (p, (known, true_of)))) holds =
      let (w, (unread, (o, y))) = started in
      let same_filters =
        subst (λ f. try_unpack_result ((k.open_scan h o.engine w.columns f).0) ≡ ok o.scan)
          ((unread.0).table_filters) o.opened in
      let same_columns =
        subst (λ d. try_unpack_result ((k.open_scan h o.engine d t.table_filters).0) ≡ ok o.scan)
          ((unread.0).columns) same_filters in
      skipping.reported h o.engine o.scan t.columns t.table_filters l p u.scan_data_iterator path
        row made known same_columns o.started true_of holds

-- What `GetAllFiles` answers is a list with this file in it.
abbrev pub Lists : Kernel → ℕ → DeltaMultiFileList → Str → Type 0
Lists k fuel t path =
    (total : List Str) × ((answer (get_all_files k fuel t) ≡ some (ok total)) × Memᴰ path total)

started-Lists :
    (k : Kernel) (h fuel : ℕ) (t u : DeltaMultiFileList) (path : Str)
    → IsFresh h t
    → ensure_scan_initialized k t ≡ (ok tt, u)
    → IsStarted k h t u
    → AreGood k u.scan_data_iterator u
    → All IsNamed (listing k u.path u.scan_data_iterator)
    → length (listing k u.path u.scan_data_iterator) < fuel
    → IsReported path u.scan_data_iterator
    → Lists k fuel t (resolve_file k.garbage t.path path)
started-Lists k h fuel t u path fresh e started good named enough reported =
    let total = listing k u.path u.scan_data_iterator in
    (
      total,
      (
        ap answer (
              get_all_files-after k fuel t u e (started-IsReady k h t u fresh started)
                (started-nothing k h t u fresh started ∙ sym (((fresh.1).1).0)))
            ∙ get_all_files-total k fuel u total (started-IsListing k h t u fresh started good)
                named enough,
        subst (λ root. Memᴰ (resolve_file k.garbage root path) total)
            (started-path k h t u fresh started)
            (listing-mem k u.path path u.scan_data_iterator reported),
      ),
    )

-- No row is lost. A row of a file of an open snapshot satisfies the filters of a list that is not scanned
-- yet and those of all the pushdowns that follow; the mode is known, the filters of the list are on its
-- columns, and each dynamic one is at the place of a column that is read. Then the list that the pushdowns end in, if its scan is
-- initialised, the kernel reads its batches without an error and no path is empty, gives from `GetAllFiles`
-- a list with this file in it, the loop being allowed one round more than there are files. What is asked of
-- the kernel is that a scan leaves out no file with a row of which the predicate is true, and that its
-- functions, as `PushFilter`, do what their names say.
pub row_listed :
    {S : Type 0} (k : Kernel) (pk : PredicateKernel S) (values : Values) (m : Meaning S)
    (laws : IsMeaning pk values m) (v : PredicateVisitor S) (Holds : ℕ → Str → Row → Type 0)
    (skipping : IsSkipping k pk m v Holds) (lib : FilterLibrary) (files : FileSystem)
    (option : Option Str) (mode : DeltaFilterPushdownMode) (rs : List Request) (row : Row)
    (h fuel : ℕ) (s t u : DeltaMultiFileList) (path : Str)
    → IsPush lib values row s.columns
    → get_pushdown_mode option ≡ ok mode
    → AreColumns s.columns s.table_filters
    → SatisfiesSet values row s.columns s.table_filters
    → All (SatisfiesRequest values row s.columns) rs
    → IsFresh h s
    → Holds h path row
    → push_requests lib files option rs s ≡ ok t
    → ensure_scan_initialized k t ≡ (ok tt, u)
    → AreGood k u.scan_data_iterator u
    → All IsNamed (listing k u.path u.scan_data_iterator)
    → length (listing k u.path u.scan_data_iterator) < fuel
    → Lists k fuel t (resolve_file k.garbage t.path path)
row_listed k pk values m laws v Holds skipping lib files option mode rs row h fuel s t u path push
      known a x y fresh holds pushed e good named enough =
    let (fresh_t, (c, filters)) =
      push_requests-IsKept values row lib s.columns push files (IsFresh h) (filtered-IsFresh lib h)
        option mode known rs s t (fresh, (refl, (a, x))) y pushed in
    let started =
      Post-of (λ _. IsStarted k h t) (ensure_scan_initialized k t) tt u e
        (ensure_scan-IsStarted k h t (fresh_t.0) ((fresh_t.1).0)) in
    let scans =
      IsPushed-Scans pk values m laws row v t
        (subst (λ d. IsPushed values row d t.table_filters) (sym c) filters) in
    started-Lists k h fuel t u path fresh_t e started good named enough
      (started-IsReported k h t u fresh_t started pk m v Holds path row skipping scans holds)
