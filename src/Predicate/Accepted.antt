-- ===== src/Predicate/Accepted.antt =====
-- What a visit leaves where the row satisfies its filter: identifiers that stand for predicates which the row satisfies, or for none.
use mathlib.Core.Path.{subst}
use duckdb_delta.Prelude.{
  ℕ, ◌≡◌, refl, sym, ◌⊎◌, inl, inr, true, Option, none, some, ok, Result-cases,
}
use duckdb_delta.Values.{
  Value, null, typed_null, boolean, tinyint_value, smallint_value, integer_value, bigint_value,
  ubigint_value, float_bits, double_bits, string, bytes, timestamp_tz_value, timestamp_value,
  date_value, decimal_value, map_value,
}
use duckdb_delta.Errors.{ExternResult, try_unpack_result}
use duckdb_delta.Filters.{
  Comparison, lessthan, lessthanorequalto, greaterthan, greaterthanorequalto, equal,
  other_comparison,
}
use duckdb_delta.Predicate.{
  PredicateKernel, PredicateVisitor, unpack, unsupported, visit_literal, visit_comparison, with_id,
}
use duckdb_delta.Predicate.Semantics.{Row, Truth, Values, Meaning, IsMeaning, Extends, NoPredicate}

module _ {S : Type 0} (m : Meaning S) (row : Row) where
  pub Extends-refl : (s : S) → Extends m s s
  Extends-refl s = (λ i f h. h, λ i p h. h)

  pub Extends-trans : (s t u : S) → Extends m s t → Extends m t u → Extends m s u
  Extends-trans s t u a b = (λ i f h. b.0 i f (a.0 i f h), λ i p h. b.1 i p (a.1 i p h))

  -- The identifier stands for no predicate, or for one that the row satisfies.
  abbrev pub Accepts : S → ℕ → Type 0
  Accepts s id =
      NoPredicate id ⊎ ((p : Row → Truth) × ((m.truth_of s id ≡ some p) × (p row ≡ some true)))

  pub Accepts-Extends : (s t : S) (id : ℕ) → Extends m s t → Accepts s id → Accepts t id
  Accepts-Extends s t id x (inl h) = inl h
  Accepts-Extends s t id x (inr (p, (h, g))) = inr (p, (x.1 id p h, g))

  -- What a visit returns, from a state on.
  abbrev pub Good : S → ℕ × PredicateVisitor S → Type 0
  Good s r = Extends m s ((r.1).state) × Accepts ((r.1).state) (r.0)

  pub Good-after : (s t : S) (r : ℕ × PredicateVisitor S) → Extends m s t → Good t r → Good s r
  Good-after s t r e g = (Extends-trans s t ((r.1).state) e (g.0), g.1)

module _ {S : Type 0} (k : PredicateKernel S) (values : Values) (m : Meaning S)
    (laws : IsMeaning k values m) (row : Row) where
  with_id-Good :
      (s : S) (p : Option ℕ × PredicateVisitor S)
      (f : ℕ → PredicateVisitor S → ℕ × PredicateVisitor S)
      → Extends m s ((p.1).state)
      → ((i : ℕ) (v : PredicateVisitor S) → p ≡ (some i, v) → Good m row s (f i v))
      → Good m row s (with_id p f)
  with_id-Good s (none, v) f x h = (x, inl (inr refl))
  with_id-Good s (some i, v) f x h = h i v refl

  pub with_id-unpack-Good :
      (s : S) (p : ExternResult ℕ × S) (v : PredicateVisitor S)
      (f : ℕ → PredicateVisitor S → ℕ × PredicateVisitor S)
      → Extends m s (p.1)
      → ((id : ℕ)
          → try_unpack_result (p.0) ≡ ok id
          → Good m row s (f id (record v { state = p.1 })))
      → Good m row s (with_id (unpack p v) f)
  unfolding unpack
  with_id-unpack-Good s p v f x h = elim (Result-cases (try_unpack_result (p.0))) [
    | inl (id, e) ↦ rw (e, unpack) (h id e)
    | inr (d, e) ↦ rw (e, unpack) (x, inl (inr refl))
  ]

  -- The identifier is a literal's, or that of a type that is not supported.
  abbrev IsLiteral : Value → S → ℕ → Type 0
  IsLiteral x s id = (m.value_of s id ≡ some (λ row. x)) ⊎ (id ≡ unsupported)

  pub with_id-visit_literal-Good :
      (s : S) (x : Value) (v : PredicateVisitor S)
      (f : ℕ → PredicateVisitor S → ℕ × PredicateVisitor S)
      → Extends m s v.state
      → ((id : ℕ) (w : PredicateVisitor S)
          → Extends m v.state w.state
          → IsLiteral x w.state id
          → Good m row s (f id w))
      → Good m row s (with_id (visit_literal k x v) f)
  unfolding visit_literal
  with_id-visit_literal-Good s (bigint_value z) v f e h =
      h _ _ (laws.literal_extends (bigint_value z) v.state)
        (inl (laws.literal (bigint_value z) v.state))
  with_id-visit_literal-Good s (integer_value z) v f e h =
      h _ _ (laws.literal_extends (integer_value z) v.state)
        (inl (laws.literal (integer_value z) v.state))
  with_id-visit_literal-Good s (smallint_value z) v f e h =
      h _ _ (laws.literal_extends (smallint_value z) v.state)
        (inl (laws.literal (smallint_value z) v.state))
  with_id-visit_literal-Good s (tinyint_value z) v f e h =
      h _ _ (laws.literal_extends (tinyint_value z) v.state)
        (inl (laws.literal (tinyint_value z) v.state))
  with_id-visit_literal-Good s (float_bits n) v f e h =
      h _ _ (laws.literal_extends (float_bits n) v.state)
        (inl (laws.literal (float_bits n) v.state))
  with_id-visit_literal-Good s (double_bits n) v f e h =
      h _ _ (laws.literal_extends (double_bits n) v.state)
        (inl (laws.literal (double_bits n) v.state))
  with_id-visit_literal-Good s (boolean b) v f e h =
      h _ _ (laws.literal_extends (boolean b) v.state) (inl (laws.literal (boolean b) v.state))
  with_id-visit_literal-Good s (string str) v f e h =
      with_id-unpack-Good s (k.visit_expression_literal_string str v.state) v f
        (Extends-trans m row s v.state _ e (laws.string_extends str v.state))
        (λ id r.
          h id _ (laws.string_extends str v.state) (inl (laws.string_literal str v.state id r)))
  with_id-visit_literal-Good s null v f e h =
      h unsupported v (Extends-refl m row v.state) (inr refl)
  with_id-visit_literal-Good s (typed_null t) v f e h =
      h unsupported v (Extends-refl m row v.state) (inr refl)
  with_id-visit_literal-Good s (ubigint_value n) v f e h =
      h unsupported v (Extends-refl m row v.state) (inr refl)
  with_id-visit_literal-Good s (bytes bs) v f e h =
      h unsupported v (Extends-refl m row v.state) (inr refl)
  with_id-visit_literal-Good s (timestamp_tz_value z) v f e h =
      h unsupported v (Extends-refl m row v.state) (inr refl)
  with_id-visit_literal-Good s (timestamp_value z) v f e h =
      h unsupported v (Extends-refl m row v.state) (inr refl)
  with_id-visit_literal-Good s (date_value z) v f e h =
      h unsupported v (Extends-refl m row v.state) (inr refl)
  with_id-visit_literal-Good s (decimal_value z w c) v f e h =
      h unsupported v (Extends-refl m row v.state) (inr refl)
  with_id-visit_literal-Good s (map_value t u xs ys) v f e h =
      h unsupported v (Extends-refl m row v.state) (inr refl)

  compare-Good :
      (c : Comparison) (l r : ℕ) (x : Value) (f : Row → Value) (v : PredicateVisitor S)
      → m.value_of v.state l ≡ some f
      → IsLiteral x v.state r
      → values.compare c (f row) x ≡ some true
      → Extends m v.state ((k.visit_predicate_compare c l r v.state).1)
        × Accepts m row
            ((k.visit_predicate_compare c l r v.state).1)
            ((k.visit_predicate_compare c l r v.state).0)
  compare-Good c l r x f v hl (inl hr) t = (
    laws.compare_extends c l r v.state,
    inr (_, (laws.compares c l r v.state f (λ row. x) hl hr, t)),
  )
  compare-Good c l r x f v hl (inr hr) t =
      let none_of = laws.compares_none c l v.state in
      (
        laws.compare_extends c l r v.state,
        inl (
            subst (λ i. NoPredicate ((k.visit_predicate_compare c l i v.state).0)) (sym hr)
              none_of),
      )

  pub visit_comparison-Good :
      (c : Comparison) (l r : ℕ) (x : Value) (f : Row → Value) (v : PredicateVisitor S)
      → m.value_of v.state l ≡ some f
      → IsLiteral x v.state r
      → values.compare c (f row) x ≡ some true
      → Good m row v.state (visit_comparison k c l r v)
  unfolding visit_comparison
  visit_comparison-Good lessthan l r x f v hl hr t = compare-Good lessthan l r x f v hl hr t
  visit_comparison-Good lessthanorequalto l r x f v hl hr t =
      compare-Good lessthanorequalto l r x f v hl hr t
  visit_comparison-Good greaterthan l r x f v hl hr t = compare-Good greaterthan l r x f v hl hr t
  visit_comparison-Good greaterthanorequalto l r x f v hl hr t =
      compare-Good greaterthanorequalto l r x f v hl hr t
  visit_comparison-Good equal l r x f v hl hr t = compare-Good equal l r x f v hl hr t
  visit_comparison-Good other_comparison l r x f v hl hr t =
      (Extends-refl m row v.state, inl (inr refl))
