-- ===== src/Predicate/Tests.antt =====
-- A filter on a column that is not there, and the theorem there.
use duckdb_delta.Prelude.{
  some, List, suc, ◌≡◌, refl, true, false, none, [], ◌∷◌, codes, str_eq, if◌then◌else◌, arith, pos,
}
use mathlib.Core.Path.{subst}
use duckdb_delta.Prelude.{
  ◌%◌, ◌==◌, ==_iff, ◌≢◌, Bool-cases, inl, inr, Str, ok, ok_inj, ok-ne-err, ℕ,
}
use duckdb_delta.Values.{Value, bigint_value, date_value}
use duckdb_delta.Errors.{ok_result, err_result, try_unpack_result}
use duckdb_delta.Filters.{
  equal, constant_comparison, conjunction_and, is_not_null, other_filter, no_filters, then_filter,
}
use duckdb_delta.Predicate.{
  unsupported, PredicateKernel, PredicateVisitor, ColumnFilters, visit_predicate,
}
use duckdb_delta.Predicate.Arena
use duckdb_delta.Predicate.Semantics.{Row, Truth, SatisfiesColumns}
use duckdb_delta.Predicate.Sound.{visit_predicate_sound}
use duckdb_delta.Predicate.Recorded.{GivesIds, has_error, has_test}
use duckdb_delta.Predicate.Reported.{unknown_column_reported}

abbrev next : ℕ → ℕ
next s = suc (s % 1000)

-- A kernel that counts in rounds, and knows no column "x". It makes nothing, which is 0, of the operand `~0`.
abbrev kernel : PredicateKernel ℕ
kernel = record {
  visit_expression_column =
      λ n s. ((if str_eq n (codes "x") then err_result none else ok_result (next s)), suc s);
  visit_expression_literal = λ x s. (next s, suc s);
  visit_expression_literal_string = λ x s. (ok_result (next s), suc s);
  visit_predicate_compare = λ c l r s. ((if r == unsupported then 0 else next s), suc s);
  visit_predicate_is_null = λ i s. (next s, suc s);
  visit_predicate_not = λ i s. ((if i == unsupported then 0 else next s), suc s);
  visit_predicate_and = λ ids s. (next s, suc s);
}

next-ne-unsupported : (s : ℕ) → next s ≢ unsupported
next-ne-unsupported s h = absurd (omega (arith, h))

next-ne-zero : (s : ℕ) → next s ≢ 0
next-ne-zero s h = absurd (omega (arith, h))

nonzero_if : (i s : ℕ) → i ≢ unsupported → (if i == unsupported then 0 else next s) ≢ 0
nonzero_if i s h g = elim (Bool-cases (i == unsupported)) [
  | inl e ↦ h ((==_iff i unsupported).0 e)
  | inr e ↦ next-ne-zero s (rw e at g)
]

column_made :
    (n : Str) (s id : ℕ)
    → try_unpack_result ((kernel.visit_expression_column n s).0) ≡ ok id
    → id ≢ unsupported
unfolding try_unpack_result
column_made n s id h = elim (Bool-cases (str_eq n (codes "x"))) [
  | inl e ↦ absurd (ok-ne-err _ id (rw e at h))
  | inr e ↦ subst (λ z. z ≢ unsupported) (ok_inj (next s) id (rw e at h)) (next-ne-unsupported s)
]

kernel-GivesIds : GivesIds kernel
unfolding try_unpack_result
kernel-GivesIds = record {
  column_id = column_made;
  literal_id = λ x s. next-ne-unsupported s;
  string_id =
      λ x s id h. subst (λ z. z ≢ unsupported) (ok_inj (next s) id h) (next-ne-unsupported s);
  compare_nonzero = λ c l r s h g. nonzero_if r s g;
  null_nonzero = λ i s h. next-ne-zero s;
  not_nonzero = λ i s h. nonzero_if (next s) (suc s) (next-ne-unsupported s);
  and_nonzero = λ ids s. next-ne-zero s;
}

abbrev filters : ColumnFilters
filters =
    (codes "a", constant_comparison equal (bigint_value (pos 7)))
    ∷ (
      codes "x",
      conjunction_and
          (then_filter (other_filter (codes "or")) (then_filter is_not_null no_filters)),
    )
    ∷ []

abbrev visitor : PredicateVisitor ℕ
visitor = record { error_data = none; state = 0 }

unknown_column_reported_example : has_error ((visit_predicate kernel filters visitor).1) ≡ true
unfolding has_test try_unpack_result
unknown_column_reported_example =
    unknown_column_reported kernel (codes "x") kernel-GivesIds (λ s. refl) filters visitor refl

-- A date is of no supported type: where the kernel makes nothing of it, the iterator ends there, and the unknown
-- column after it is not reported.
abbrev dated : ColumnFilters
dated = (codes "a", constant_comparison equal (date_value (pos 7))) ∷ (codes "x", is_not_null) ∷ []

unsupported_hides_column : has_error ((visit_predicate kernel dated visitor).1) ≡ false
unfolding visit_predicate try_unpack_result
unsupported_hides_column = refl

-- A row whose columns are all 7, and the kernel that makes expressions.
abbrev sevens : Row
sevens = λ n. bigint_value (pos 7)

abbrev no_error : PredicateVisitor (List (Row → Value))
no_error = record { error_data = none; state = [] }

sevens_satisfy : SatisfiesColumns Arena.values sevens filters
unfolding SatisfiesColumns
sevens_satisfy = (refl, ((tt, (refl, tt)), tt))

visit_predicate_sound_example :
    let r = visit_predicate Arena.kernel filters no_error in
    (p : Row → Truth) × ((Arena.meaning.truth_of ((r.1).state) (r.0) ≡ some p)
      × (p sevens ≡ some true))
visit_predicate_sound_example =
    visit_predicate_sound Arena.kernel Arena.values Arena.meaning Arena.kernel-IsMeaning sevens
      filters no_error sevens_satisfy
