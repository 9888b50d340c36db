-- ===== src/Predicate/Reported.antt =====
-- A column that the kernel does not know is reported.
use mathlib.Core.Path.{subst}
use mathlib.Core.Bool.{true≢false}
use duckdb_delta.Prelude.{
  str_eq, ◌&&◌, eq_of-str_eq, ℕ, ◌≡◌, ◌≢◌, sym, Bool, true, false, ◌||◌, [], ◌∷◌, Str, inl, inr,
  refl, Result-cases, arith, Bool-cases,
}
use duckdb_delta.Values.{
  Value, null, typed_null, boolean, tinyint_value, smallint_value, integer_value, bigint_value,
  ubigint_value, float_bits, double_bits, string, bytes, timestamp_tz_value, timestamp_value,
  date_value, decimal_value, map_value,
}
use duckdb_delta.Errors.{try_unpack_result}
use duckdb_delta.Filters.{
  Comparison, lessthan, lessthanorequalto, greaterthan, greaterthanorequalto, equal,
  other_comparison, TableFilter, constant_comparison, conjunction_and, is_null, is_not_null,
  other_filter, ChildFilters, no_filters, then_filter,
}
use duckdb_delta.Predicate.{
  PredicateKernel, PredicateVisitor, ColumnFilters, unpack, visit_literal, visit_comparison,
  visit_constant_filter, visit_is_null, visit_is_not_null, visit_filter, visit_children,
  visit_columns, visit_predicate, with_id, unsupported,
}
use duckdb_delta.Predicate.Recorded.{
  failed, has_error, has_test, has_tests, and_left, and_right, or_right, with_id_kept, unpack_kept,
  next_id_kept, next_id-GoesOn, GivesIds, unsupported_nonzero, with_id-GoesOn, GoesOn, IsMade,
  unpack-IsMade, is_supported, supports,
}

module _ {S : Type 0} (k : PredicateKernel S) where
  literal_kept :
      (x : Value) (v : PredicateVisitor S)
      → has_error v ≡ true
      → has_error ((visit_literal k x v).1) ≡ true
  unfolding visit_literal unpack
  literal_kept x v h = ground arith

  comparison_kept :
      (c : Comparison) (l r : ℕ) (v : PredicateVisitor S)
      → has_error v ≡ true
      → has_error ((visit_comparison k c l r v).1) ≡ true
  unfolding visit_comparison
  comparison_kept c l r v h = ground arith

  is_null_kept :
      (n : Str) (v : PredicateVisitor S)
      → has_error v ≡ true
      → has_error ((visit_is_null k n v).1) ≡ true
  unfolding visit_is_null unpack
  is_null_kept n v h = ground arith

  constant_kept :
      (n : Str) (c : Comparison) (x : Value) (v : PredicateVisitor S)
      → has_error v ≡ true
      → has_error ((visit_constant_filter k n c x v).1) ≡ true
  unfolding visit_constant_filter unpack
  constant_kept n c x v h =
      with_id_kept (unpack (k.visit_expression_column n v.state) v)
        (λ l w. with_id (visit_literal k x w) (λ r z. visit_comparison k c l r z))
        (unpack_kept (k.visit_expression_column n v.state) v h)
        (λ l w g.
          with_id_kept (visit_literal k x w) (λ r z. visit_comparison k c l r z)
            (literal_kept x w g) (λ r z y. comparison_kept c l r z y))

  mutual
    unfolding visit_filter visit_is_not_null

    filter_kept :
        (n : Str) (f : TableFilter) (v : PredicateVisitor S)
        → has_error v ≡ true
        → has_error ((visit_filter k n f v).1) ≡ true
    filter_kept n (constant_comparison c x) v h = constant_kept n c x v h
    filter_kept n (conjunction_and fs) v h = children_kept n fs v h
    filter_kept n is_null v h = is_null_kept n v h
    filter_kept n is_not_null v h = is_null_kept n v h
    filter_kept n (other_filter o) v h = h

    children_kept :
        (n : Str) (fs : ChildFilters) (v : PredicateVisitor S)
        → has_error v ≡ true
        → has_error ((visit_children k n fs v).1) ≡ true
    children_kept n no_filters v h = h
    children_kept n (then_filter f fs) v h =
        next_id_kept (visit_filter k n f v) (visit_children k n fs) (filter_kept n f v h)
          (children_kept n fs)

  -- The column fails.
  is_null_fails :
      (n : Str) (v : PredicateVisitor S)
      → failed (try_unpack_result ((k.visit_expression_column n v.state).0)) ≡ true
      → has_error ((visit_is_null k n v).1) ≡ true
  unfolding visit_is_null unpack
  is_null_fails n v h = ground arith

  constant_fails :
      (n : Str) (c : Comparison) (x : Value) (v : PredicateVisitor S)
      → failed (try_unpack_result ((k.visit_expression_column n v.state).0)) ≡ true
      → has_error ((visit_constant_filter k n c x v).1) ≡ true
  unfolding visit_constant_filter unpack
  constant_fails n c x v h = ground arith

  comparison-GoesOn :
      GivesIds k
      → (c : Comparison) (l r : ℕ) (v : PredicateVisitor S) → l ≢ unsupported
      → r ≢ unsupported
      → GoesOn (visit_comparison k c l r v)
  unfolding visit_comparison
  comparison-GoesOn ids lessthan l r v h g = inl (ids.compare_nonzero lessthan l r v.state h g)
  comparison-GoesOn ids lessthanorequalto l r v h g =
      inl (ids.compare_nonzero lessthanorequalto l r v.state h g)
  comparison-GoesOn ids greaterthan l r v h g =
      inl (ids.compare_nonzero greaterthan l r v.state h g)
  comparison-GoesOn ids greaterthanorequalto l r v h g =
      inl (ids.compare_nonzero greaterthanorequalto l r v.state h g)
  comparison-GoesOn ids equal l r v h g = inl (ids.compare_nonzero equal l r v.state h g)
  comparison-GoesOn ids other_comparison l r v h g = inl unsupported_nonzero

  literal-IsMade :
      GivesIds k
      → (x : Value) (v : PredicateVisitor S) → is_supported x ≡ true
      → IsMade (visit_literal k x v)
  unfolding visit_literal
  literal-IsMade ids (bigint_value z) v h = ids.literal_id (bigint_value z) v.state
  literal-IsMade ids (integer_value z) v h = ids.literal_id (integer_value z) v.state
  literal-IsMade ids (smallint_value z) v h = ids.literal_id (smallint_value z) v.state
  literal-IsMade ids (tinyint_value z) v h = ids.literal_id (tinyint_value z) v.state
  literal-IsMade ids (float_bits n) v h = ids.literal_id (float_bits n) v.state
  literal-IsMade ids (double_bits n) v h = ids.literal_id (double_bits n) v.state
  literal-IsMade ids (boolean b) v h = ids.literal_id (boolean b) v.state
  literal-IsMade ids (string s) v h =
      unpack-IsMade (k.visit_expression_literal_string s v.state) v (ids.string_id s v.state)
  literal-IsMade ids null v h = absurd (true≢false (sym h))
  literal-IsMade ids (typed_null t) v h = absurd (true≢false (sym h))
  literal-IsMade ids (ubigint_value n) v h = absurd (true≢false (sym h))
  literal-IsMade ids (bytes s) v h = absurd (true≢false (sym h))
  literal-IsMade ids (timestamp_tz_value z) v h = absurd (true≢false (sym h))
  literal-IsMade ids (timestamp_value z) v h = absurd (true≢false (sym h))
  literal-IsMade ids (date_value z) v h = absurd (true≢false (sym h))
  literal-IsMade ids (decimal_value z w s) v h = absurd (true≢false (sym h))
  literal-IsMade ids (map_value t u ks vs) v h = absurd (true≢false (sym h))

  constant-GoesOn :
      GivesIds k
      → (n : Str) (c : Comparison) (x : Value) (v : PredicateVisitor S) → is_supported x ≡ true
      → GoesOn (visit_constant_filter k n c x v)
  unfolding visit_constant_filter
  constant-GoesOn ids n c x v h =
      with_id-GoesOn (unpack (k.visit_expression_column n v.state) v) _
        (unpack-IsMade (k.visit_expression_column n v.state) v (ids.column_id n v.state))
        (λ l w a.
          with_id-GoesOn (visit_literal k x w) _ (literal-IsMade ids x w h)
            (λ r z b. comparison-GoesOn ids c l r z a b))

  is_null-GoesOn : GivesIds k → (n : Str) (v : PredicateVisitor S) → GoesOn (visit_is_null k n v)
  unfolding visit_is_null
  is_null-GoesOn ids n v =
      with_id-GoesOn (unpack (k.visit_expression_column n v.state) v) _
        (unpack-IsMade (k.visit_expression_column n v.state) v (ids.column_id n v.state))
        (λ i w a. inl (ids.null_nonzero i w.state a))

  is_not_null-GoesOn :
      GivesIds k → (n : Str) (v : PredicateVisitor S) → GoesOn (visit_is_not_null k n v)
  unfolding visit_is_not_null visit_is_null unpack
  is_not_null-GoesOn ids n v =
      let column = k.visit_expression_column n v.state in
      elim (Result-cases (try_unpack_result (column.0))) [
        | inl (id, e) ↦
            rw (e, unpack) (inl (ids.not_nonzero id (column.1) (ids.column_id n v.state id e)))
        | inr (d, e) ↦ rw (e, unpack) (inr refl)
      ]

  filter-GoesOn :
      GivesIds k
      → (n : Str) (f : TableFilter) (v : PredicateVisitor S) → supports f ≡ true
      → GoesOn (visit_filter k n f v)
  unfolding visit_filter
  filter-GoesOn ids n (constant_comparison c x) v h = constant-GoesOn ids n c x v h
  filter-GoesOn ids n (conjunction_and fs) v h = inl (ids.and_nonzero _ _)
  filter-GoesOn ids n is_null v h = is_null-GoesOn ids n v
  filter-GoesOn ids n is_not_null v h = is_not_null-GoesOn ids n v
  filter-GoesOn ids n (other_filter o) v h = inl unsupported_nonzero

  -- A filter that holds no test is never a comparison.
  no_test_supported : (f : TableFilter) → has_test f ≡ false → supports f ≡ true
  unfolding has_test
  no_test_supported (constant_comparison c x) h = absurd (true≢false h)
  no_test_supported (conjunction_and fs) h = refl
  no_test_supported is_null h = refl
  no_test_supported is_not_null h = refl
  no_test_supported (other_filter o) h = refl

  -- The kernel knows no column `n`.
  module _ (n : Str) (ids : GivesIds k)
      (unknown : (s : S)
        → failed (try_unpack_result ((k.visit_expression_column n s).0)) ≡ true) where
    mutual
      unfolding visit_filter visit_is_not_null has_test

      filter_fails :
          (f : TableFilter) (v : PredicateVisitor S)
          → has_test f ≡ true
          → has_error ((visit_filter k n f v).1) ≡ true
      filter_fails (constant_comparison c x) v h = constant_fails n c x v (unknown v.state)
      filter_fails (conjunction_and fs) v h = children_fail fs v h
      filter_fails is_null v h = is_null_fails n v (unknown v.state)
      filter_fails is_not_null v h = is_null_fails n v (unknown v.state)
      filter_fails (other_filter o) v h = absurd (true≢false (sym h))

      children_fail :
          (fs : ChildFilters) (v : PredicateVisitor S)
          → has_tests fs ≡ true
          → has_error ((visit_children k n fs v).1) ≡ true
      children_fail no_filters v h = absurd (true≢false (sym h))
      children_fail (then_filter f fs) v h = elim (Bool-cases (has_test f)) [
        | inl t ↦
            next_id_kept (visit_filter k n f v) (visit_children k n fs) (filter_fails f v t)
              (children_kept n fs)
        | inr t ↦
            next_id-GoesOn (visit_filter k n f v) (visit_children k n fs)
              (filter-GoesOn ids n f v (no_test_supported f t)) (children_kept n fs)
              (children_fail fs ((visit_filter k n f v).1)
                (or_right (has_test f) (has_tests fs) t h))
      ]

-- The list has a test of the column `n`, and no comparison with a constant of a type that is not supported
-- in a filter of its own before that.
abbrev pub reaches_column : Str → ColumnFilters → Bool
reaches_column n [] = false
reaches_column n ((m, f) ∷ l) = (str_eq m n && has_test f) || (supports f && reaches_column n l)

module _ {S : Type 0} (k : PredicateKernel S) where
  columns_kept :
      (l : ColumnFilters) (v : PredicateVisitor S)
      → has_error v ≡ true
      → has_error ((visit_columns k l v).1) ≡ true
  unfolding visit_columns
  columns_kept [] v h = h
  columns_kept ((n, f) ∷ l) v h =
      next_id_kept (visit_filter k n f v) (visit_columns k l) (filter_kept k n f v h)
        (columns_kept l)

-- Where the kernel knows no column `n`, a filter set that tests this column, at any depth of conjunctions,
-- ends with an error recorded, unless a column before it is compared with a constant of a type that is not
-- supported. The kernel does not use `~0` for what it makes, and makes no predicate 0 from what it made.
pub unknown_column_reported :
    {S : Type 0} (k : PredicateKernel S) (n : Str)
    → GivesIds k
    → ((s : S) → failed (try_unpack_result ((k.visit_expression_column n s).0)) ≡ true)
    → (l : ColumnFilters) (v : PredicateVisitor S) → reaches_column n l ≡ true
    → has_error ((visit_predicate k l v).1) ≡ true
unfolding visit_predicate
unknown_column_reported {S = S} k n ids unknown l v h = go l v h
  where
    go :
        (l : ColumnFilters) (v : PredicateVisitor S)
        → reaches_column n l ≡ true
        → has_error ((visit_columns k l v).1) ≡ true
    go [] v h = absurd (true≢false (sym h))
    go ((m, f) ∷ l) v h = elim (Bool-cases (str_eq m n && has_test f)) [
      | inl t ↦
          let same : n ≡ m = sym (eq_of-str_eq m n (and_left (str_eq m n) (has_test f) t)) in
          let fails = filter_fails k n ids unknown f v (and_right (str_eq m n) (has_test f) t) in
          next_id_kept (visit_filter k m f v) (visit_columns k l)
            (subst (λ z. has_error ((visit_filter k z f v).1) ≡ true) same fails) (columns_kept k l)
      | inr t ↦
          let rest = or_right (str_eq m n && has_test f) (supports f && reaches_column n l) t h in
          next_id-GoesOn (visit_filter k m f v) (visit_columns k l)
            (filter-GoesOn k ids m f v (and_left (supports f) (reaches_column n l) rest))
            (columns_kept k l)
            (go l ((visit_filter k m f v).1) (and_right (supports f) (reaches_column n l) rest))
    ]
