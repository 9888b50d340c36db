-- ===== src/Predicate.antt =====
-- `PredicateVisitor` (delta_utils.hpp, delta_utils.cpp): the table filters, handed to the Delta kernel
-- as a predicate on files.
pub mod Recorded
pub mod Reported
pub mod Semantics
pub mod Accepted
pub mod Sound
pub mod Arena
mod Tests
use duckdb_delta.Prelude.{
  ℕ, zero, suc, ◌>>=◌, ◌-◌, ◌^◌, ◌==◌, Bool, true, false, Option, none, some, List, [], ◌∷◌, Str,
  str_eq, ErrorData, ok, err, Result, throw, internal, codes, get_elem?, if◌then◌else◌,
}
use duckdb_delta.Types.{Fields, end, field}
use duckdb_delta.Values.{
  Value, null, typed_null, boolean, tinyint_value, smallint_value, integer_value, bigint_value,
  ubigint_value, float_bits, double_bits, string, bytes, timestamp_tz_value, timestamp_value,
  date_value, decimal_value, map_value,
}
use duckdb_delta.Errors.{ExternResult, try_unpack_result}
use duckdb_delta.Filters.{
  Comparison, lessthan, lessthanorequalto, greaterthan, greaterthanorequalto, equal,
  other_comparison, TableFilter, constant_comparison, conjunction_and, is_null, is_not_null,
  other_filter, ChildFilters, no_filters, then_filter, TableFilterSet,
}

-- The kernel's functions, on its `KernelExpressionVisitorState`. `visit_predicate_and` is given the
-- identifiers that it reads from the iterator.
pub record PredicateKernel (S : Type 0) : Type 0 where
  pub visit_expression_column : Str → S → ExternResult ℕ × S
  pub visit_expression_literal : Value → S → ℕ × S
  pub visit_expression_literal_string : Str → S → ExternResult ℕ × S
  pub visit_predicate_compare : Comparison → ℕ → ℕ → S → ℕ × S
  pub visit_predicate_is_null : ℕ → S → ℕ × S
  pub visit_predicate_not : ℕ → S → ℕ × S
  pub visit_predicate_and : List ℕ → S → ℕ × S

-- The visitor's error beside the kernel's state.
pub record PredicateVisitor (S : Type 0) : Type 0 where
  pub error_data : Option ErrorData
  pub state : S

-- `column_filters`, in the order in which the map is iterated.
abbrev pub ColumnFilters : Type 0
ColumnFilters = List (Str × TableFilter)

abbrev pub nth_name : Fields → ℕ → Option Str
nth_name end i = none
nth_name (field n t fs) zero = some n
nth_name (field n t fs) (suc i) = nth_name fs i

unfoldable pub assign_filter : Str → TableFilter → ColumnFilters → ColumnFilters
assign_filter n f [] = (n, f) ∷ []
assign_filter n f ((m, g) ∷ l) = if str_eq m n then (m, f) ∷ l else (m, g) ∷ assign_filter n f l

abbrev pub add_filter : Option Str → TableFilter → ColumnFilters → Result ColumnFilters
add_filter none f l = throw internal (codes "Attempted to access index outside a vector")
add_filter (some n) f l = ok (assign_filter n f l)

-- The constructor: filters by column number become filters by name.
unfoldable pub column_filters : Fields → TableFilterSet → ColumnFilters → Result ColumnFilters
unfolding assign_filter
column_filters names [] l = ok l
column_filters names ((i, f) ∷ fs) l = add_filter (nth_name names i) f l >>= column_filters names fs

-- `~0`.
abbrev pub unsupported : ℕ
unsupported = 2 ^ 64 - 1

module _ {S : Type 0} where
  abbrev set_state : ℕ × S → PredicateVisitor S → ℕ × PredicateVisitor S
  set_state (id, s) v = (id, record v { state = s })

  -- An identifier, or nothing where the kernel's error is recorded.
  unfoldable pub unpack : ExternResult ℕ × S → PredicateVisitor S → Option ℕ × PredicateVisitor S
  unfolding try_unpack_result
  unpack (r, s) v = elim (try_unpack_result r) [
    | ok id ↦ (some id, record v { state = s })
    | err e ↦ (none, record { error_data = some e; state = s })
  ]

  abbrev supported : ℕ × S → PredicateVisitor S → Option ℕ × PredicateVisitor S
  supported (id, s) v = (some id, record v { state = s })

  -- An early return of `~0` where there is no identifier.
  abbrev pub with_id :
      Option ℕ × PredicateVisitor S
      → (ℕ → PredicateVisitor S → ℕ × PredicateVisitor S)
      → ℕ × PredicateVisitor S
  with_id (none, v) f = (unsupported, v)
  with_id (some i, v) f = f i v

  -- One filter more for the iterator: the identifier 0 ends it.
  abbrev pub next_id :
      ℕ × PredicateVisitor S
      → (PredicateVisitor S → List ℕ × PredicateVisitor S)
      → List ℕ × PredicateVisitor S
  next_id (id, v) rest = let (ids, w) = rest v in if id == 0 then ([], v) else (id ∷ ids, w)

module _ {S : Type 0} (k : PredicateKernel S) where
  -- The literal of a constant, which is not NULL; a type that is not supported is passed on as `~0`.
  unfoldable pub visit_literal : Value → PredicateVisitor S → Option ℕ × PredicateVisitor S
  unfolding unpack
  visit_literal (bigint_value z) v =
      supported (k.visit_expression_literal (bigint_value z) v.state) v
  visit_literal (integer_value z) v =
      supported (k.visit_expression_literal (integer_value z) v.state) v
  visit_literal (smallint_value z) v =
      supported (k.visit_expression_literal (smallint_value z) v.state) v
  visit_literal (tinyint_value z) v =
      supported (k.visit_expression_literal (tinyint_value z) v.state) v
  visit_literal (float_bits n) v = supported (k.visit_expression_literal (float_bits n) v.state) v
  visit_literal (double_bits n) v = supported (k.visit_expression_literal (double_bits n) v.state) v
  visit_literal (boolean b) v = supported (k.visit_expression_literal (boolean b) v.state) v
  visit_literal (string s) v = unpack (k.visit_expression_literal_string s v.state) v
  visit_literal _ v = (some unsupported, v)

  unfoldable pub visit_comparison : Comparison → ℕ → ℕ → PredicateVisitor S → ℕ × PredicateVisitor S
  visit_comparison other_comparison left right v = (unsupported, v)
  visit_comparison lessthan left right v =
      set_state (k.visit_predicate_compare lessthan left right v.state) v
  visit_comparison lessthanorequalto left right v =
      set_state (k.visit_predicate_compare lessthanorequalto left right v.state) v
  visit_comparison greaterthan left right v =
      set_state (k.visit_predicate_compare greaterthan left right v.state) v
  visit_comparison greaterthanorequalto left right v =
      set_state (k.visit_predicate_compare greaterthanorequalto left right v.state) v
  visit_comparison equal left right v =
      set_state (k.visit_predicate_compare equal left right v.state) v

  unfoldable pub visit_constant_filter :
      Str → Comparison → Value → PredicateVisitor S → ℕ × PredicateVisitor S
  unfolding unpack visit_literal visit_comparison
  visit_constant_filter col_name comparison_type constant v =
      with_id (unpack (k.visit_expression_column col_name v.state) v) (λ left v1.
        with_id (visit_literal constant v1)
          (λ right v2. visit_comparison comparison_type left right v2))

  unfoldable pub visit_is_null : Str → PredicateVisitor S → ℕ × PredicateVisitor S
  unfolding unpack
  visit_is_null col_name v =
      with_id (unpack (k.visit_expression_column col_name v.state) v)
        (λ inner v1. set_state (k.visit_predicate_is_null inner v1.state) v1)

  unfoldable pub visit_is_not_null : Str → PredicateVisitor S → ℕ × PredicateVisitor S
  unfolding visit_is_null
  visit_is_not_null col_name v =
      let (inner, v1) = visit_is_null col_name v in
      set_state (k.visit_predicate_not inner v1.state) v1

  abbrev pub close_and : List ℕ × PredicateVisitor S → ℕ × PredicateVisitor S
  close_and (ids, v) = set_state (k.visit_predicate_and ids v.state) v

  -- `VisitFilter`, and the iterator of `VisitAndFilter` read to its end.
  unfoldable mutual
    unfolding visit_constant_filter visit_is_null visit_is_not_null

    pub visit_filter : Str → TableFilter → PredicateVisitor S → ℕ × PredicateVisitor S
    visit_filter col_name (constant_comparison c x) v = visit_constant_filter col_name c x v
    visit_filter col_name (conjunction_and fs) v = close_and (visit_children col_name fs v)
    visit_filter col_name is_null v = visit_is_null col_name v
    visit_filter col_name is_not_null v = visit_is_not_null col_name v
    visit_filter col_name (other_filter n) v = (unsupported, v)

    pub visit_children : Str → ChildFilters → PredicateVisitor S → List ℕ × PredicateVisitor S
    visit_children col_name no_filters v = ([], v)
    visit_children col_name (then_filter f fs) v =
        next_id (visit_filter col_name f v) (visit_children col_name fs)

  unfoldable pub visit_columns : ColumnFilters → PredicateVisitor S → List ℕ × PredicateVisitor S
  unfolding visit_filter
  visit_columns [] v = ([], v)
  visit_columns ((n, f) ∷ l) v = next_id (visit_filter n f v) (visit_columns l)

  -- `VisitPredicate`.
  unfoldable pub visit_predicate : ColumnFilters → PredicateVisitor S → ℕ × PredicateVisitor S
  unfolding visit_columns
  visit_predicate l v = close_and (visit_columns l v)
