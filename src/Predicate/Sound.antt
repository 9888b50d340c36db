-- ===== src/Predicate/Sound.antt =====
-- A row that satisfies the filters satisfies the predicate that the kernel is given.
use duckdb_delta.Prelude.{
  ℕ, ◌≡◌, refl, ap, inl, inr, true, false, not, some, List, [], ◌∷◌, All, Str, Result-cases, ◌==◌,
  Bool-cases,
}
use duckdb_delta.Values.{Value}
use duckdb_delta.Errors.{try_unpack_result}
use duckdb_delta.Filters.{
  Comparison, TableFilter, constant_comparison, conjunction_and, is_null, is_not_null, other_filter,
  ChildFilters, no_filters, then_filter,
}
use duckdb_delta.Predicate.{
  PredicateKernel, PredicateVisitor, ColumnFilters, unpack, unsupported, visit_comparison,
  visit_constant_filter, visit_is_null, visit_is_not_null, visit_filter, visit_children,
  visit_columns, visit_predicate, next_id, close_and,
}
use duckdb_delta.Predicate.Semantics.{
  Row, Truth, Values, Meaning, IsMeaning, Extends, conjunction, Satisfies, SatisfiesAll,
  SatisfiesColumns,
}
use duckdb_delta.Predicate.Accepted.{
  Extends-refl, Extends-trans, Accepts, Accepts-Extends, Good, with_id-unpack-Good,
  with_id-visit_literal-Good, visit_comparison-Good, Good-after,
}

module _ {S : Type 0} (k : PredicateKernel S) (values : Values) (m : Meaning S)
    (laws : IsMeaning k values m) (row : Row) where
  visit_constant_filter-Good :
      (n : Str) (c : Comparison) (x : Value) (v : PredicateVisitor S)
      → values.compare c (row n) x ≡ some true
      → Good m row v.state (visit_constant_filter k n c x v)
  unfolding visit_constant_filter
  visit_constant_filter-Good n c x v t =
      let column = k.visit_expression_column n v.state in
      let ext = laws.column_extends n v.state in
      with_id-unpack-Good k values m laws row v.state column v _ ext (λ left e.
        with_id-visit_literal-Good k values m laws row v.state x (record v { state = column.1 }) _
          ext
          (λ right w ew lit.
            Good-after m row v.state w.state (visit_comparison k c left right w)
              (Extends-trans m row v.state (column.1) w.state ext ew)
              (visit_comparison-Good k values m laws row c left right x (λ r. r n) w
                (ew.0 left _ (laws.column n v.state left e)) lit t)))

  visit_is_null-Good :
      (n : Str) (v : PredicateVisitor S)
      → values.is_null_value (row n) ≡ true
      → Good m row v.state (visit_is_null k n v)
  unfolding visit_is_null
  visit_is_null-Good n v t =
      let column = k.visit_expression_column n v.state in
      let ext = laws.column_extends n v.state in
      with_id-unpack-Good k values m laws row v.state column v _ ext (λ inner e. (
        Extends-trans m row v.state (column.1) _ ext (laws.null_extends inner (column.1)),
        inr (_, (laws.tests_null inner (column.1) _ (laws.column n v.state inner e), ap some t)),
      ))

  visit_is_not_null-Good :
      (n : Str) (v : PredicateVisitor S)
      → values.is_null_value (row n) ≡ false
      → Good m row v.state (visit_is_not_null k n v)
  unfolding visit_is_not_null visit_is_null unpack
  visit_is_not_null-Good n v t =
      let column = k.visit_expression_column n v.state in
      let ext = laws.column_extends n v.state in
      elim (Result-cases (try_unpack_result (column.0))) [
        | inl (id, e) ↦
            let test = k.visit_predicate_is_null id (column.1) in
            let known = laws.tests_null id (column.1) _ (laws.column n v.state id e) in
            rw (e, unpack)
              (
                Extends-trans m row v.state (column.1) _ ext (
                    Extends-trans m row (column.1) (test.1) _ (laws.null_extends id (column.1))
                      (laws.not_extends (test.0) (test.1))),
                inr (_, (laws.negates (test.0) (test.1) _ known, ap (λ b. some (not b)) t)),
              )
        | inr (d, e) ↦
            rw (e, unpack)
              (
                Extends-trans m row v.state (column.1) _ ext
                    (laws.not_extends unsupported (column.1)),
                inl (laws.negates_none (column.1)),
              )
      ]

  -- Several identifiers, all accepted.
  abbrev GoodAll : S → List ℕ × PredicateVisitor S → Type 0
  GoodAll s r = Extends m s ((r.1).state) × All (Accepts m row ((r.1).state)) (r.0)

  next_id-GoodAll :
      (s : S) (p : ℕ × PredicateVisitor S) (rest : PredicateVisitor S → List ℕ × PredicateVisitor S)
      → Good m row s p
      → GoodAll ((p.1).state) (rest (p.1))
      → GoodAll s (next_id p rest)
  next_id-GoodAll s (id, v) rest h g = elim (Bool-cases (id == 0)) [
    | inl e ↦ rw e (h.0, tt)
    | inr e ↦ rw e (
      Extends-trans m row s v.state _ (h.0) (g.0),
      (Accepts-Extends m row v.state _ id (g.0) (h.1), g.1),
    )
  ]

  conjunction-true :
      (s : S) (ids : List ℕ)
      → All (Accepts m row s) ids
      → conjunction (m.truth_of s) ids row ≡ some true
  conjunction-true s [] h = refl
  conjunction-true s (id ∷ ids) (inl e, h) =
      rw (laws.no_predicate s id e, conjunction) (conjunction-true s ids h)
  conjunction-true s (id ∷ ids) (inr (p, (e, t)), h) =
      rw (e, conjunction) (rw t (conjunction-true s ids h))

  close_and-Good :
      (s : S) (r : List ℕ × PredicateVisitor S) → GoodAll s r → Good m row s (close_and k r)
  close_and-Good s (ids, v) h = (
    Extends-trans m row s v.state _ (h.0) (laws.and_extends ids v.state),
    inr (_, (laws.conjoins ids v.state, conjunction-true v.state ids (h.1))),
  )

  mutual
    unfolding visit_filter Satisfies

    visit_filter-Good :
        (n : Str) (f : TableFilter) (v : PredicateVisitor S)
        → Satisfies values row n f
        → Good m row v.state (visit_filter k n f v)
    visit_filter-Good n (constant_comparison c x) v t = visit_constant_filter-Good n c x v t
    visit_filter-Good n (conjunction_and fs) v t =
        close_and-Good v.state (visit_children k n fs v) (visit_children-GoodAll n fs v t)
    visit_filter-Good n is_null v t = visit_is_null-Good n v t
    visit_filter-Good n is_not_null v t = visit_is_not_null-Good n v t
    visit_filter-Good n (other_filter s) v t = (Extends-refl m row v.state, inl (inr refl))

    visit_children-GoodAll :
        (n : Str) (fs : ChildFilters) (v : PredicateVisitor S)
        → SatisfiesAll values row n fs
        → GoodAll v.state (visit_children k n fs v)
    visit_children-GoodAll n no_filters v t = (Extends-refl m row v.state, tt)
    visit_children-GoodAll n (then_filter f fs) v t =
        next_id-GoodAll v.state (visit_filter k n f v) (visit_children k n fs)
          (visit_filter-Good n f v (t.0))
          (visit_children-GoodAll n fs ((visit_filter k n f v).1) (t.1))

  visit_columns-GoodAll :
      (l : ColumnFilters) (v : PredicateVisitor S)
      → SatisfiesColumns values row l
      → GoodAll v.state (visit_columns k l v)
  unfolding visit_columns SatisfiesColumns
  visit_columns-GoodAll [] v t = (Extends-refl m row v.state, tt)
  visit_columns-GoodAll ((n, f) ∷ l) v t =
      next_id-GoodAll v.state (visit_filter k n f v) (visit_columns k l)
        (visit_filter-Good n f v (t.0)) (visit_columns-GoodAll l ((visit_filter k n f v).1) (t.1))

  -- The predicate that the kernel is given is true of every row that satisfies the table filters, also
  -- where a filter is of a kind that is not supported or names an unknown column: no file that holds
  -- such a row may be skipped for it. The kernel's functions make what their names say.
  pub visit_predicate_sound :
      (l : ColumnFilters) (v : PredicateVisitor S)
      → SatisfiesColumns values row l
      → let r = visit_predicate k l v in
        (p : Row → Truth) × ((m.truth_of ((r.1).state) (r.0) ≡ some p) × (p row ≡ some true))
  unfolding visit_predicate
  visit_predicate_sound l v t =
      let all = visit_columns-GoodAll l v t in
      (
        _,
        (
          laws.conjoins ((visit_columns k l v).0) (((visit_columns k l v).1).state),
          conjunction-true (((visit_columns k l v).1).state) ((visit_columns k l v).0) (all.1),
        ),
      )
