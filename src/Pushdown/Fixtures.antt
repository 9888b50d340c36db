-- ===== src/Pushdown/Fixtures.antt =====
-- `PushFilter` as a conjunction on each column, and a list with filters, for the tests.
use mathlib.Core.Path.{subst}
use duckdb_delta.Prelude.{
  ℕ, ◌==◌, ==_iff, ◌≡◌, Bool-cases, inl, inr, true, false, Option, none, some, List, [], ◌∷◌, codes,
  ltb, pos, if◌then◌else◌,
}
use duckdb_delta.Types.{Fields, end, field, bigint}
use duckdb_delta.Values.{Value, bigint_value}
use duckdb_delta.Paths.{FileSystem}
use duckdb_delta.Filters.{
  TableFilter, TableFilterSet, constant_comparison, conjunction_and, is_not_null, equal, no_filters,
  then_filter,
}
use duckdb_delta.FileList.State.{DeltaMultiFileList, create}
use duckdb_delta.Predicate.{PredicateVisitor, nth_name}
use duckdb_delta.Predicate.Semantics.{Row, Values, Satisfies}
use duckdb_delta.Pushdown.{FilterLibrary, count_fields}
use duckdb_delta.Pushdown.Sound.{AreColumns, SatisfiesName, SatisfiesSet, IsPush}

abbrev push : ℕ → TableFilter → TableFilterSet → TableFilterSet
push i f [] = (i, f) ∷ []
push i f ((j, g) ∷ fs) =
    let rest = push i f fs in
    if i == j
    then (j, conjunction_and (then_filter g (then_filter f no_filters))) ∷ fs
    else (j, g) ∷ rest

abbrev pub library : FilterLibrary
library = record { push_filter = push; equals = λ f g. false }

module _ (values : Values) (row : Row) where
  SatisfiesName-both :
      (n : Option (List ℕ)) (f g : TableFilter)
      → SatisfiesName values row n f
      → SatisfiesName values row n g
      → SatisfiesName values row n (conjunction_and (then_filter g (then_filter f no_filters)))
  unfolding Satisfies
  SatisfiesName-both none f g h k = tt
  SatisfiesName-both (some n) f g h k = (k, (h, tt))

  push_satisfied :
      (columns : Fields) (i : ℕ) (f : TableFilter) (fs : TableFilterSet)
      → SatisfiesName values row (nth_name columns i) f
      → SatisfiesSet values row columns fs
      → SatisfiesSet values row columns (push i f fs)
  unfolding SatisfiesSet
  push_satisfied columns i f [] h k = (h, tt)
  push_satisfied columns i f ((j, g) ∷ fs) h (x, k) = elim (Bool-cases (i == j)) [
    | inl e ↦
        let same : SatisfiesName values row (nth_name columns j) f =
          subst (λ c. SatisfiesName values row (nth_name columns c) f) ((==_iff i j).0 e) h in
        rw e (SatisfiesName-both (nth_name columns j) f g same x, k)
    | inr e ↦ rw e (x, push_satisfied columns i f fs h k)
  ]

push_columns :
    (columns : Fields) (i : ℕ) (f : TableFilter) (fs : TableFilterSet)
    → ltb i (count_fields columns) ≡ true
    → AreColumns columns fs
    → AreColumns columns (push i f fs)
unfolding AreColumns
push_columns columns i f [] h k = (h, tt)
push_columns columns i f ((j, g) ∷ fs) h (x, k) = elim (Bool-cases (i == j)) [
  | inl e ↦ rw e (x, k)
  | inr e ↦ rw e (x, push_columns columns i f fs h k)
]

pub library-IsPush :
    (values : Values) (row : Row) (columns : Fields) → IsPush library values row columns
library-IsPush values row columns = record {
  push_satisfied = push_satisfied values row columns;
  push_columns = push_columns columns;
}

abbrev pub sevens : Row
sevens = λ n. bigint_value (pos 7)

abbrev pub seven : TableFilter
seven = constant_comparison equal (bigint_value (pos 7))

abbrev pub columns : Fields
columns = field (codes "a") bigint (field (codes "b") bigint end)

-- A list that has a filter on b already.
abbrev pub filtered_once : DeltaMultiFileList
filtered_once = record (create (codes "d/")) {
  columns = columns;
  table_filters = (1, is_not_null) ∷ [];
}

-- Filters on a, on b, and on a column that is not there.
abbrev pub new_filters : TableFilterSet
new_filters = (0, seven) ∷ (1, seven) ∷ (9, is_not_null) ∷ []

abbrev pub files : FileSystem
files = record { working_directory = codes "/"; join_path = λ a b. a }

abbrev pub no_error : PredicateVisitor (List (Row → Value))
no_error = record { error_data = none; state = [] }
