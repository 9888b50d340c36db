-- ===== src/Predicate/Arena.antt =====
-- A kernel for the tests. Its expressions are numbered by even numbers, in the order in which they are
-- made; every comparison is true and no value is NULL, so that each predicate is constant: 1 is true
-- and 2 is false.
use mathlib.Core.Path.{subst, fun_ext}
use mathlib.Core.Option.{none-ne-some, some_inj}
use duckdb_delta.Prelude.{
  ℕ, zero, suc, ◌*◌, ◌/◌, ◌%◌, ◌==◌, ◌≡◌, ◌∙◌, refl, sym, ap, inl, inr, Bool, Bool-cases, ==_iff,
  true, false, Option, none, some, List, [], ◌∷◌, ◌++◌, ok, ok_inj, length, get_elem?,
  if◌then◌else◌, arith,
}
use duckdb_delta.Values.{Value, string}
use duckdb_delta.Errors.{ok_result, try_unpack_result}
use duckdb_delta.Predicate.{PredicateKernel, unsupported}
use duckdb_delta.Predicate.Semantics.{
  Row, Truth, Values, Meaning, IsMeaning, Extends, NoPredicate, conjunction, negate,
}

abbrev Arena : Type 0
Arena = List (Row → Value)

abbrev make : (Row → Value) → Arena → ℕ × Arena
make f s = (2 * length s, s ++ f ∷ [])

abbrev is_true : ℕ → Bool
is_true id = id == 1

-- No member is false.
abbrev none_false : List ℕ → Bool
none_false [] = true
none_false (id ∷ ids) = if id == 2 then false else none_false ids

abbrev negated : ℕ → ℕ
negated id = if id == 1 then 2 else if id == 2 then 1 else 0

abbrev pub kernel : PredicateKernel Arena
kernel = record {
  visit_expression_column = λ n s. (ok_result (2 * length s), s ++ (λ row. row n) ∷ []);
  visit_expression_literal = λ x s. make (λ row. x) s;
  visit_expression_literal_string =
      λ str s. (ok_result (2 * length s), s ++ (λ row. string str) ∷ []);
  visit_predicate_compare = λ c l r s. ((if r == unsupported then 0 else 1), s);
  visit_predicate_is_null = λ i s. (2, s);
  visit_predicate_not = λ i s. (negated i, s);
  visit_predicate_and = λ ids s. ((if none_false ids then 1 else 2), s);
}

abbrev pub values : Values
values = record { compare = λ c x y. some true; is_null_value = λ x. false }

abbrev value_of : Arena → ℕ → Option (Row → Value)
value_of s i = if i % 2 == 0 then get_elem? s (i / 2) else none

abbrev truth_of : ℕ → Option (Row → Truth)
truth_of i =
    if i == 1 then some (λ row. some true) else if i == 2 then some (λ row. some false) else none

abbrev pub meaning : Meaning Arena
meaning = record { value_of = value_of; truth_of = λ s i. truth_of i }

get_elem?-append_self :
    {A : Type 0} (s : List A) (x : A) → get_elem? (s ++ x ∷ []) (length s) ≡ some x
get_elem?-append_self [] x = refl
get_elem?-append_self (y ∷ s) x = get_elem?-append_self s x

value_of-made : (f : Row → Value) (s : Arena) → value_of (s ++ f ∷ []) (2 * length s) ≡ some f
value_of-made f s =
    let even : (2 * length s) % 2 ≡ 0 = omega arith in
    let half : (2 * length s) / 2 ≡ length s = omega arith in
    rw even (rw half (get_elem?-append_self s f))

get_elem?-append_some :
    {A : Type 0} (s t : List A) (i : ℕ) (x : A)
    → get_elem? s i ≡ some x
    → get_elem? (s ++ t) i ≡ some x
get_elem?-append_some [] t i x h = absurd (none-ne-some x h)
get_elem?-append_some (y ∷ s) t zero x h = h
get_elem?-append_some (y ∷ s) t (suc i) x h = get_elem?-append_some s t i x h

made-Extends : (f : Row → Value) (s : Arena) → Extends meaning s (s ++ f ∷ [])
made-Extends f s = (
  λ i g h. elim (Bool-cases (i % 2 == 0)) [
    | inl e ↦ rw e (get_elem?-append_some s (f ∷ []) (i / 2) g (rw e at h))
    | inr e ↦ absurd (none-ne-some g (rw e at h))
  ],
  λ i p h. h,
)

same-Extends : (s : Arena) → Extends meaning s s
same-Extends s = (λ i g h. h, λ i p h. h)

conjunction-none_false :
    (ids : List ℕ) (row : Row) → conjunction truth_of ids row ≡ some (none_false ids)
conjunction-none_false [] row = refl
conjunction-none_false (id ∷ ids) row = ground (arith, conjunction-none_false ids row)

negated_lem :
    (i : ℕ) (p : Row → Truth)
    → truth_of i ≡ some p
    → truth_of (negated i) ≡ some (λ row. negate (p row))
negated_lem i p h = elim (Bool-cases (i == 1)) [
  | inl e ↦ rw e (ap (λ q. some (λ row. negate (q row))) (some_inj.0 (rw e at h)))
  | inr e ↦ elim (Bool-cases (i == 2)) [
    | inl g ↦
        rw e (rw g (ap (λ q. some (λ row. negate (q row))) (some_inj.0 (rw g at (rw e at h)))))
    | inr g ↦ absurd (none-ne-some p (rw g at (rw e at h)))
  ]
]

no_truth : (i : ℕ) → NoPredicate i → truth_of i ≡ none
no_truth i (inl h) = rw h refl
no_truth i (inr h) = rw h refl

unsupported_odd : (s : Arena) → value_of s unsupported ≡ none
unsupported_odd s = refl

compares_lem :
    (l r : ℕ) (s : Arena) (g : Row → Value)
    → value_of s r ≡ some g
    → truth_of (if r == unsupported then 0 else 1) ≡ some (λ row. some true)
compares_lem l r s g h = elim (Bool-cases (r == unsupported)) [
  | inl e ↦
      absurd (none-ne-some g (subst (λ x. value_of s x ≡ some g) ((==_iff r unsupported).0 e) h))
  | inr e ↦ rw e refl
]

conjoins_lem :
    (ids : List ℕ) → truth_of (if none_false ids then 1 else 2) ≡ some (conjunction truth_of ids)
conjoins_lem ids = elim (Bool-cases (none_false ids)) [
  | inl e ↦ rw e (ap some (fun_ext (λ row. sym (conjunction-none_false ids row ∙ ap some e))))
  | inr e ↦ rw e (ap some (fun_ext (λ row. sym (conjunction-none_false ids row ∙ ap some e))))
]

made_lem :
    (f : Row → Value) (s : Arena) (id : ℕ)
    → try_unpack_result (ok_result (2 * length s)) ≡ ok id
    → value_of (s ++ f ∷ []) id ≡ some f
unfolding try_unpack_result
made_lem f s id h =
    subst (λ i. value_of (s ++ f ∷ []) i ≡ some f) (ok_inj (2 * length s) id h) (value_of-made f s)

pub kernel-IsMeaning : IsMeaning kernel values meaning
kernel-IsMeaning = record {
  column = λ n s id h. made_lem (λ row. row n) s id h;
  column_extends = λ n s. made-Extends (λ row. row n) s;
  literal = λ x s. value_of-made (λ row. x) s;
  literal_extends = λ x s. made-Extends (λ row. x) s;
  string_literal = λ str s id h. made_lem (λ row. string str) s id h;
  string_extends = λ str s. made-Extends (λ row. string str) s;
  compares = λ c l r s f g hl hr. compares_lem l r s g hr;
  compares_none = λ c l s. inl refl;
  compare_extends = λ c l r s. same-Extends s;
  tests_null = λ i s f h. refl;
  null_extends = λ i s. same-Extends s;
  negates = λ i s p h. negated_lem i p h;
  negates_none = λ s. inl refl;
  not_extends = λ i s. same-Extends s;
  conjoins = λ ids s. conjoins_lem ids;
  and_extends = λ ids s. same-Extends s;
  no_predicate = λ s i h. no_truth i h;
}
