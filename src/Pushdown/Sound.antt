-- ===== src/Pushdown/Sound.antt =====
-- The filters of a list that pushdown makes, from the filters pushed down to the predicate that the kernel
-- is given when the list is scanned.
use mathlib.Core.Path.{subst}
use mathlib.Core.Option.{some_inj, none-ne-some}
use duckdb_delta.Prelude.{
  ℕ, zero, suc, ◌≡◌, refl, sym, Bool-cases, inl, inr, true, Option, none, some, [], ◌∷◌, Str, ltb,
  ok, str_eq, eq_of-str_eq, arith,
}
use duckdb_delta.Types.{Fields, end, field}
use duckdb_delta.Paths.{FileSystem, to_delta_path}
use duckdb_delta.Filters.{TableFilter, TableFilterSet}
use duckdb_delta.FileList.State.{DeltaMultiFileList}
use duckdb_delta.Predicate.{
  PredicateKernel, PredicateVisitor, ColumnFilters, nth_name, assign_filter, column_filters,
  visit_predicate,
}
use duckdb_delta.Predicate.Semantics.{
  Row, Truth, Values, Meaning, IsMeaning, Satisfies, SatisfiesColumns,
}
use duckdb_delta.Predicate.Sound.{visit_predicate_sound}
use duckdb_delta.Pushdown.{
  FilterLibrary, count_fields, push_all, push_new, new_list, filtered, pushdown_internal,
}

-- Every filter is on a column of the table.
unfoldable pub AreColumns : Fields → TableFilterSet → Type 0
AreColumns columns [] = Unit
AreColumns columns ((i, f) ∷ fs) = (ltb i (count_fields columns) ≡ true) × AreColumns columns fs

-- Nothing is asked of a column that is not there.
abbrev pub SatisfiesName : Values → Row → Option Str → TableFilter → Type 0
SatisfiesName values row none f = Unit
SatisfiesName values row (some n) f = Satisfies values row n f

-- The row satisfies each filter on its column.
unfoldable pub SatisfiesSet : Values → Row → Fields → TableFilterSet → Type 0
SatisfiesSet values row columns [] = Unit
SatisfiesSet values row columns ((i, f) ∷ fs) =
    SatisfiesName values row (nth_name columns i) f × SatisfiesSet values row columns fs

-- `PushFilter` adds a filter on the column to those that are there, and none on another column.
pub record IsPush (lib : FilterLibrary) (values : Values) (row : Row) (columns : Fields)
    : Type 0 where
  pub push_satisfied :
      (i : ℕ) (f : TableFilter) (fs : TableFilterSet)
      → SatisfiesName values row (nth_name columns i) f
      → SatisfiesSet values row columns fs
      → SatisfiesSet values row columns (lib.push_filter i f fs)
  pub push_columns :
      (i : ℕ) (f : TableFilter) (fs : TableFilterSet)
      → ltb i (count_fields columns) ≡ true
      → AreColumns columns fs
      → AreColumns columns (lib.push_filter i f fs)

-- What is kept while filters are pushed: they are on columns, and the row satisfies them.
abbrev pub IsPushed : Values → Row → Fields → TableFilterSet → Type 0
IsPushed values row columns fs = AreColumns columns fs × SatisfiesSet values row columns fs

nth_name-some :
    (columns : Fields) (i : ℕ)
    → ltb i (count_fields columns) ≡ true
    → (n : Str) × (nth_name columns i ≡ some n)
nth_name-some end i h = ground arith
nth_name-some (field n t fs) zero h = (n, refl)
nth_name-some (field n t fs) (suc i) h = nth_name-some fs i (ground arith)

module _ (values : Values) (row : Row) where
  assign_filter-Satisfies :
      (n : Str) (f : TableFilter) (l : ColumnFilters)
      → Satisfies values row n f
      → SatisfiesColumns values row l
      → SatisfiesColumns values row (assign_filter n f l)
  unfolding assign_filter SatisfiesColumns
  assign_filter-Satisfies n f [] h g = (h, tt)
  assign_filter-Satisfies n f ((m, o) ∷ l) h g = elim (Bool-cases (str_eq m n)) [
    | inl e ↦ rw e (subst (λ c. Satisfies values row c f) (sym (eq_of-str_eq m n e)) h, g.1)
    | inr e ↦ rw e (g.0, assign_filter-Satisfies n f l h (g.1))
  ]

  column_filters-Satisfies :
      (columns : Fields) (fs : TableFilterSet) (l : ColumnFilters)
      → AreColumns columns fs
      → SatisfiesSet values row columns fs
      → SatisfiesColumns values row l
      → (r : ColumnFilters) × (column_filters columns fs l ≡ ok r) × SatisfiesColumns values row r
  unfolding column_filters AreColumns SatisfiesSet
  column_filters-Satisfies columns [] l a h g = (l, refl, g)
  column_filters-Satisfies columns ((i, f) ∷ fs) l (b, a) (x, h) g =
      let (n, e) = nth_name-some columns i b in
      let y : Satisfies values row n f = subst (λ o. SatisfiesName values row o f) e x in
      rw e (
        column_filters-Satisfies columns fs (assign_filter n f l) a h
          (assign_filter-Satisfies n f l y g))

  module _ (lib : FilterLibrary) (columns : Fields) (push : IsPush lib values row columns) where
    push_all-IsPushed :
        (fs result : TableFilterSet)
        → IsPushed values row columns fs
        → IsPushed values row columns result
        → IsPushed values row columns (push_all lib fs result)
    unfolding push_all AreColumns SatisfiesSet
    push_all-IsPushed [] result h g = g
    push_all-IsPushed ((i, f) ∷ fs) result ((b, a), (x, h)) (c, g) =
        push_all-IsPushed fs (lib.push_filter i f result) (a, h)
          (push.push_columns i f result b c, push.push_satisfied i f result x g)

    push_new-IsPushed :
        (fs result : TableFilterSet)
        → SatisfiesSet values row columns fs
        → IsPushed values row columns result
        → IsPushed values row columns (push_new lib (count_fields columns) fs result)
    unfolding push_new SatisfiesSet
    push_new-IsPushed [] result h g = g
    push_new-IsPushed ((i, f) ∷ fs) result (x, h) (c, g) =
        elim (Bool-cases (ltb i (count_fields columns))) [
          | inl e ↦ rw e (
              push_new-IsPushed fs (lib.push_filter i f result) h
                (push.push_columns i f result e c, push.push_satisfied i f result x g))
          | inr e ↦ rw e (push_new-IsPushed fs result h (c, g))
        ]

    -- The filters of a list and those that are new, together.
    pub push_new-push_all :
        (new old : TableFilterSet)
        → IsPushed values row columns old
        → SatisfiesSet values row columns new
        → IsPushed values row columns
            (push_new lib (count_fields columns) new (push_all lib old []))
    unfolding AreColumns SatisfiesSet
    push_new-push_all new old h g =
        push_new-IsPushed new (push_all lib old []) g (push_all-IsPushed old [] h (tt, tt))

-- The list's filters are on its columns, and its visitor is made and hands over a predicate that is true of
-- the row.
abbrev pub Scans :
    {S : Type 0}
    → PredicateKernel S
    → Meaning S
    → Row
    → PredicateVisitor S
    → DeltaMultiFileList
    → Type 0
Scans k m row v t =
    AreColumns t.columns t.table_filters
    × ((l : ColumnFilters) × (column_filters t.columns t.table_filters [] ≡ ok l)
        × (let r = visit_predicate k l v in
            (p : Row → Truth) × ((m.truth_of ((r.1).state) (r.0) ≡ some p) × (p row ≡ some true))))

-- What pushdown makes is the list with both kinds of filters, on a path that it took.
new_list-filtered :
    (lib : FilterLibrary) (filters : TableFilterSet) (s t : DeltaMultiFileList) (path : Option Str)
    → new_list lib filters s path ≡ some t
    → (p : Str) × (filtered lib filters s p ≡ t)
new_list-filtered lib filters s t none h = absurd (none-ne-some t h)
new_list-filtered lib filters s t (some p) h = (p, some_inj.0 h)

-- A list whose filters the row satisfies.
pub IsPushed-Scans :
    {S : Type 0} (k : PredicateKernel S) (values : Values) (m : Meaning S)
    (laws : IsMeaning k values m) (row : Row) (v : PredicateVisitor S) (t : DeltaMultiFileList)
    → IsPushed values row t.columns t.table_filters
    → Scans k m row v t
unfolding SatisfiesColumns
IsPushed-Scans k values m laws row v t (c, h) =
    let (l, made, g) = column_filters-Satisfies values row t.columns t.table_filters [] c h tt in
    (c, (l, made, visit_predicate_sound k values m laws row l v g))

-- A list that pushdown makes has filters on columns of the table alone, its visitor is made without an
-- error, and the predicate that the kernel is given is true of every row that satisfies the filters of the
-- first list and those pushed down: no file that holds such a row may be skipped for it. The filters of the
-- first list are on its columns; `PushFilter` and the kernel's functions do what their names say.
pub pushdown_internal_sound :
    {S : Type 0} (k : PredicateKernel S) (values : Values) (m : Meaning S)
    (laws : IsMeaning k values m) (row : Row) (lib : FilterLibrary) (files : FileSystem)
    (filters : TableFilterSet) (s t : DeltaMultiFileList) (v : PredicateVisitor S)
    → IsPush lib values row s.columns
    → pushdown_internal lib files filters s ≡ some t
    → AreColumns s.columns s.table_filters
    → SatisfiesSet values row s.columns s.table_filters
    → SatisfiesSet values row s.columns filters
    → Scans k m row v t
unfolding pushdown_internal
pushdown_internal_sound k values m laws row lib files filters s t v push h a x y =
    let (p, e) = new_list-filtered lib filters s t (to_delta_path files s.path) h in
    subst (Scans k m row v) e (
      IsPushed-Scans k values m laws row v (filtered lib filters s p)
        (push_new-push_all values row lib s.columns push filters s.table_filters (a, x) y))
