-- ===== src/Predicate/Recorded.antt =====
-- A recorded error, and the filters that test a column.
use duckdb_delta.Prelude.{
  ◌&&◌, ℕ, ◌≡◌, ◌≢◌, Bool, true, false, ◌||◌, Option, none, some, List, Str, Result, Result-cases,
  ok, err, arith, ◌⊎◌, inl, inr, refl,
}
use duckdb_delta.Values.{
  Value, bigint_value, integer_value, smallint_value, tinyint_value, float_bits, double_bits,
  boolean, string,
}
use duckdb_delta.Errors.{ExternResult, try_unpack_result}
use duckdb_delta.Filters.{
  Comparison, TableFilter, constant_comparison, conjunction_and, is_null, is_not_null, other_filter,
  ChildFilters, no_filters, then_filter,
}
use duckdb_delta.Predicate.{
  PredicateKernel, PredicateVisitor, unpack, unsupported, next_id, with_id,
}

abbrev pub failed : {A : Type 0} → Result A → Bool
failed (ok a) = false
failed (err e) = true

abbrev pub has_error : {S : Type 0} → PredicateVisitor S → Bool
has_error v = elim v.error_data [ none ↦ false | some e ↦ true ]

-- Whether a filter is, or holds, a test of its column.
unfoldable mutual
  pub has_test : TableFilter → Bool
  has_test (constant_comparison c x) = true
  has_test (conjunction_and fs) = has_tests fs
  has_test is_null = true
  has_test is_not_null = true
  has_test (other_filter n) = false

  pub has_tests : ChildFilters → Bool
  has_tests no_filters = false
  has_tests (then_filter f fs) = has_test f || has_tests fs

pub and_left : (a b : Bool) → (a && b) ≡ true → a ≡ true
and_left a b h = ground arith

pub and_right : (a b : Bool) → (a && b) ≡ true → b ≡ true
and_right a b h = ground arith

pub or_right : (a b : Bool) → a ≡ false → (a || b) ≡ true → b ≡ true
or_right a b h g = ground arith

module _ {S : Type 0} where
  pub with_id_kept :
      (p : Option ℕ × PredicateVisitor S) (f : ℕ → PredicateVisitor S → ℕ × PredicateVisitor S)
      → has_error (p.1) ≡ true
      → ((i : ℕ) (v : PredicateVisitor S) → has_error v ≡ true → has_error ((f i v).1) ≡ true)
      → has_error ((with_id p f).1) ≡ true
  with_id_kept (none, v) f h g = h
  with_id_kept (some i, v) f h g = g i v h

  pub unpack_kept :
      (p : ExternResult ℕ × S) (v : PredicateVisitor S)
      → has_error v ≡ true
      → has_error ((unpack p v).1) ≡ true
  unfolding unpack
  unpack_kept p v h = ground arith

  pub next_id_kept :
      (p : ℕ × PredicateVisitor S) (rest : PredicateVisitor S → List ℕ × PredicateVisitor S)
      → has_error (p.1) ≡ true
      → ((v : PredicateVisitor S) → has_error v ≡ true → has_error ((rest v).1) ≡ true)
      → has_error ((next_id p rest).1) ≡ true
  next_id_kept (i, v) rest h g = ground (arith, g v h)

  pub next_id_goes_on :
      (p : ℕ × PredicateVisitor S) (rest : PredicateVisitor S → List ℕ × PredicateVisitor S)
      → p.0 ≢ 0
      → has_error ((rest (p.1)).1) ≡ true
      → has_error ((next_id p rest).1) ≡ true
  next_id_goes_on (i, v) rest h g = ground arith

-- A constant whose type has a literal in the kernel.
abbrev pub is_supported : Value → Bool
is_supported (bigint_value z) = true
is_supported (integer_value z) = true
is_supported (smallint_value z) = true
is_supported (tinyint_value z) = true
is_supported (float_bits n) = true
is_supported (double_bits n) = true
is_supported (boolean b) = true
is_supported (string s) = true
is_supported _ = false

-- The filter is not a comparison with a constant of another type.
abbrev pub supports : TableFilter → Bool
supports (constant_comparison c x) = is_supported x
supports _ = true

-- The kernel does not use `~0` for what it makes, and makes no predicate 0, which would end an iterator,
-- from what it made. What it answers for the operand `~0` is left open.
pub record GivesIds {S : Type 0} (k : PredicateKernel S) : Type 0 where
  pub column_id :
      (n : Str) (s : S) (id : ℕ)
      → try_unpack_result ((k.visit_expression_column n s).0) ≡ ok id
      → id ≢ unsupported
  pub literal_id : (x : Value) (s : S) → (k.visit_expression_literal x s).0 ≢ unsupported
  pub string_id :
      (x : Str) (s : S) (id : ℕ)
      → try_unpack_result ((k.visit_expression_literal_string x s).0) ≡ ok id
      → id ≢ unsupported
  pub compare_nonzero :
      (c : Comparison) (l r : ℕ) (s : S)
      → l ≢ unsupported
      → r ≢ unsupported
      → (k.visit_predicate_compare c l r s).0 ≢ 0
  pub null_nonzero : (i : ℕ) (s : S) → i ≢ unsupported → (k.visit_predicate_is_null i s).0 ≢ 0
  pub not_nonzero :
      (i : ℕ) (s : S)
      → i ≢ unsupported
      → let test = k.visit_predicate_is_null i s in (k.visit_predicate_not (test.0) (test.1)).0 ≢ 0
  pub and_nonzero : (ids : List ℕ) (s : S) → (k.visit_predicate_and ids s).0 ≢ 0

pub unsupported_nonzero : unsupported ≢ 0
unsupported_nonzero = λ h. absurd (omega (arith, h))

module _ {S : Type 0} where
  -- The iterator goes on after this filter, or an error is recorded.
  abbrev pub GoesOn : ℕ × PredicateVisitor S → Type 0
  GoesOn (id, v) = (id ≢ 0) ⊎ (has_error v ≡ true)

  -- An identifier of an expression, or an error.
  abbrev pub IsMade : Option ℕ × PredicateVisitor S → Type 0
  IsMade (none, v) = has_error v ≡ true
  IsMade (some i, v) = i ≢ unsupported

  pub with_id-GoesOn :
      (p : Option ℕ × PredicateVisitor S) (f : ℕ → PredicateVisitor S → ℕ × PredicateVisitor S)
      → IsMade p
      → ((i : ℕ) (v : PredicateVisitor S) → i ≢ unsupported → GoesOn (f i v))
      → GoesOn (with_id p f)
  with_id-GoesOn (none, v) f h g = inr h
  with_id-GoesOn (some i, v) f h g = g i v h

  pub unpack-IsMade :
      (p : ExternResult ℕ × S) (v : PredicateVisitor S)
      → ((id : ℕ) → try_unpack_result (p.0) ≡ ok id → id ≢ unsupported)
      → IsMade (unpack p v)
  unfolding unpack
  unpack-IsMade (r, s) v h = elim (Result-cases (try_unpack_result r)) [
    | inl (id, e) ↦ rw (e, unpack) (h id e)
    | inr (d, e) ↦ rw (e, unpack) refl
  ]

  -- The rest of an iterator is read, or an error is recorded already.
  pub next_id-GoesOn :
      (p : ℕ × PredicateVisitor S) (rest : PredicateVisitor S → List ℕ × PredicateVisitor S)
      → GoesOn p
      → ((v : PredicateVisitor S) → has_error v ≡ true → has_error ((rest v).1) ≡ true)
      → has_error ((rest (p.1)).1) ≡ true
      → has_error ((next_id p rest).1) ≡ true
  next_id-GoesOn p rest (inl h) kept g = next_id_goes_on p rest h g
  next_id-GoesOn p rest (inr h) kept g = next_id_kept p rest h kept
