-- ===== src/Predicate/Semantics.antt =====
-- What the kernel's identifiers stand for, as far as the visitor relies on it.
use duckdb_delta.Prelude.{
  ℕ, ◌≡◌, ◌⊎◌, Bool, true, false, not, Option, none, some, List, [], ◌∷◌, Str, ok,
}
use duckdb_delta.Values.{Value}
use duckdb_delta.Errors.{try_unpack_result}
use duckdb_delta.Filters.{
  Comparison, TableFilter, constant_comparison, conjunction_and, is_null, is_not_null, other_filter,
  ChildFilters, no_filters, then_filter,
}
use duckdb_delta.Predicate.{PredicateKernel, ColumnFilters, unsupported}

-- A row, by the names of its columns.
abbrev pub Row : Type 0
Row = Str → Value

-- A truth value, or unknown.
abbrev pub Truth : Type 0
Truth = Option Bool

abbrev pub negate : Truth → Truth
negate none = none
negate (some b) = some (not b)

abbrev pub both : Truth → Truth → Truth
both (some true) t = t
both (some false) t = some false
both none (some false) = some false
both none _ = none

-- The conjunction of the predicates that are known.
abbrev pub conjunction : (ℕ → Option (Row → Truth)) → List ℕ → Row → Truth
conjunction truth_of [] row = some true
conjunction truth_of (id ∷ ids) row = elim (truth_of id) [
  | none ↦ conjunction truth_of ids row
  | some p ↦ both (p row) (conjunction truth_of ids row)
]

-- An identifier that stands for no predicate.
abbrev pub NoPredicate : ℕ → Type 0
NoPredicate id = (id ≡ 0) ⊎ (id ≡ unsupported)

-- How values are compared, and which are NULL, in DuckDB and in the kernel.
pub record Values : Type 0 where
  pub compare : Comparison → Value → Value → Truth
  pub is_null_value : Value → Bool

-- The expression and the predicate that an identifier was made as, in a state of the kernel.
pub record Meaning (S : Type 0) : Type 0 where
  pub value_of : S → ℕ → Option (Row → Value)
  pub truth_of : S → ℕ → Option (Row → Truth)

module _ {S : Type 0} (m : Meaning S) where
  -- What was made before stands for the same as before.
  abbrev pub Extends : S → S → Type 0
  Extends s t =
      ((i : ℕ) (f : Row → Value) → m.value_of s i ≡ some f → m.value_of t i ≡ some f)
      × ((i : ℕ) (p : Row → Truth) → m.truth_of s i ≡ some p → m.truth_of t i ≡ some p)

-- The kernel's functions make what their names say; what no predicate can be made from gives none, and a
-- conjunction leaves it out.
pub record IsMeaning {S : Type 0} (k : PredicateKernel S) (values : Values) (m : Meaning S)
    : Type 0 where
  pub column :
      (n : Str) (s : S) (id : ℕ)
      → try_unpack_result ((k.visit_expression_column n s).0) ≡ ok id
      → m.value_of ((k.visit_expression_column n s).1) id ≡ some (λ row. row n)
  pub column_extends : (n : Str) (s : S) → Extends m s ((k.visit_expression_column n s).1)
  pub literal :
      (x : Value) (s : S)
      → m.value_of ((k.visit_expression_literal x s).1) ((k.visit_expression_literal x s).0)
        ≡ some (λ row. x)
  pub literal_extends : (x : Value) (s : S) → Extends m s ((k.visit_expression_literal x s).1)
  pub string_literal :
      (str : Str) (s : S) (id : ℕ)
      → try_unpack_result ((k.visit_expression_literal_string str s).0) ≡ ok id
      → m.value_of ((k.visit_expression_literal_string str s).1) id ≡ some (λ row. Value.string str)
  pub string_extends :
      (str : Str) (s : S) → Extends m s ((k.visit_expression_literal_string str s).1)
  pub compares :
      (c : Comparison) (l r : ℕ) (s : S) (f g : Row → Value)
      → m.value_of s l ≡ some f
      → m.value_of s r ≡ some g
      → m.truth_of ((k.visit_predicate_compare c l r s).1) ((k.visit_predicate_compare c l r s).0)
        ≡ some (λ row. values.compare c (f row) (g row))
  pub compares_none :
      (c : Comparison) (l : ℕ) (s : S)
      → NoPredicate ((k.visit_predicate_compare c l unsupported s).0)
  pub compare_extends :
      (c : Comparison) (l r : ℕ) (s : S) → Extends m s ((k.visit_predicate_compare c l r s).1)
  pub tests_null :
      (i : ℕ) (s : S) (f : Row → Value)
      → m.value_of s i ≡ some f
      → m.truth_of ((k.visit_predicate_is_null i s).1) ((k.visit_predicate_is_null i s).0)
        ≡ some (λ row. some (values.is_null_value (f row)))
  pub null_extends : (i : ℕ) (s : S) → Extends m s ((k.visit_predicate_is_null i s).1)
  pub negates :
      (i : ℕ) (s : S) (p : Row → Truth)
      → m.truth_of s i ≡ some p
      → m.truth_of ((k.visit_predicate_not i s).1) ((k.visit_predicate_not i s).0)
        ≡ some (λ row. negate (p row))
  pub negates_none : (s : S) → NoPredicate ((k.visit_predicate_not unsupported s).0)
  pub not_extends : (i : ℕ) (s : S) → Extends m s ((k.visit_predicate_not i s).1)
  pub conjoins :
      (ids : List ℕ) (s : S)
      → m.truth_of ((k.visit_predicate_and ids s).1) ((k.visit_predicate_and ids s).0)
        ≡ some (conjunction (m.truth_of s) ids)
  pub and_extends : (ids : List ℕ) (s : S) → Extends m s ((k.visit_predicate_and ids s).1)
  pub no_predicate : (s : S) (i : ℕ) → NoPredicate i → m.truth_of s i ≡ none

-- The row satisfies a column's filter, as far as the extension reads filters: nothing is asked of a
-- filter of another kind.
unfoldable mutual
  pub Satisfies : Values → Row → Str → TableFilter → Type 0
  Satisfies values row n (constant_comparison c x) = values.compare c (row n) x ≡ some true
  Satisfies values row n (conjunction_and fs) = SatisfiesAll values row n fs
  Satisfies values row n is_null = values.is_null_value (row n) ≡ true
  Satisfies values row n is_not_null = values.is_null_value (row n) ≡ false
  Satisfies values row n (other_filter s) = Unit

  pub SatisfiesAll : Values → Row → Str → ChildFilters → Type 0
  SatisfiesAll values row n no_filters = Unit
  SatisfiesAll values row n (then_filter f fs) =
      Satisfies values row n f × SatisfiesAll values row n fs

unfoldable pub SatisfiesColumns : Values → Row → ColumnFilters → Type 0
unfolding Satisfies
SatisfiesColumns values row [] = Unit
SatisfiesColumns values row ((n, f) ∷ l) = Satisfies values row n f × SatisfiesColumns values row l
