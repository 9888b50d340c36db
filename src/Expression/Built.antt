-- ===== src/Expression/Built.antt =====
-- The documented visit of a well-formed expression leaves exactly that expression in the visitor.
use mathlib.Core.Path.{fun_ext, subst}
use native.Mathlib.Nat.{add-zero}
use duckdb_delta.Prelude.{
  ℕ, ◌+◌, ◌≢◌, ◌^◌, ◌<◌, ◌≡◌, refl, sym, ap, ◌∙◌, true, Option, none, some, [], ◌∷◌, arith, ok,
  ErrorData,
}
use duckdb_delta.Values.{ExpressionType, Exprs, no_exprs, snoc_expr, append_exprs, plain}
use duckdb_delta.Expression.Decimals.{decimal_argument-hugeint}
use duckdb_delta.Inflight.{Lists, lookup, update}
use duckdb_delta.Inflight.Laws.{
  Below, Below-mono, Below-update, lookup-update_self, update-update, update_head, update-same,
  lookup_head,
}
use duckdb_delta.Expression.{make_field_list, visit_binary_expression, forty_two, operands}
use duckdb_delta.Expression.Literals.{Library}
use duckdb_delta.Expression.Kernel.{
  KernelExpr, KernelExprs, literal, column, decimal, node, struct_literal, map_literal, no_children,
  child, visit_expr, visit_exprs, finish, visit_kernel_expression, to_expr, to_exprs, IsWellFormed,
  AreWellFormed, cost, cost_all, made, is_ok,
}
use duckdb_delta.Expression.States.{
  append-no_exprs, append_exprs-snoc_expr, state, make_state, append_state, take_state, node_state,
  literal_state, column_state, struct_state, map_state, decimal_state,
}

module _ (lib : Library) where
  -- What a visit does to a visitor that has the sibling list.
  abbrev ExprVisit : KernelExpr → Type 0
  ExprVisit x =
      (sib : ℕ) (l : Lists Exprs) (n : ℕ) (e : Option ErrorData) (xs : Exprs)
      → lookup sib l ≡ some xs
      → Below n l
      → n + cost x < 2 ^ 64
      → IsWellFormed lib x
      → visit_expr lib x sib (state l n e)
        ≡ state (update sib (snoc_expr (to_expr lib x)) l) (n + cost x) e

  abbrev ExprsVisit : KernelExprs → Type 0
  ExprsVisit xs =
      (sib : ℕ) (l : Lists Exprs) (n : ℕ) (e : Option ErrorData) (ys : Exprs)
      → lookup sib l ≡ some ys
      → Below n l
      → n + cost_all xs < 2 ^ 64
      → AreWellFormed lib xs
      → visit_exprs lib xs sib (state l n e)
        ≡ state (update sib (λ zs. append_exprs zs (to_exprs lib xs)) l) (n + cost_all xs) e

  -- A visit into a fresh list.
  exprs_fresh :
      (xs : KernelExprs)
      → ExprsVisit xs
      → (l : Lists Exprs) (n : ℕ) (e : Option ErrorData) → Below n l
      → n + 1 + cost_all xs < 2 ^ 64
      → AreWellFormed lib xs
      → visit_exprs lib xs n (state ((n, no_exprs) ∷ l) (n + 1) e)
        ≡ state ((n, to_exprs lib xs) ∷ l) (n + 1 + cost_all xs) e
  unfolding append_exprs
  exprs_fresh xs ih l n e b h w =
      ih n ((n, no_exprs) ∷ l) (n + 1) e no_exprs (lookup_head n no_exprs l)
        (omega arith, Below-mono n (n + 1) l (omega arith) b) h w
      ∙ ap (λ k. state k (n + 1 + cost_all xs) e) (update_head n _ no_exprs l)

  same_id : (l : Lists Exprs) (e : Option ErrorData) (m n : ℕ) → m ≡ n → state l m e ≡ state l n e
  same_id l e m n h = ap (λ k. state l k e) h

  -- The two lists of a struct or a map, one above the other.
  pair_fresh :
      (ks es : KernelExprs)
      → ExprsVisit ks
      → ExprsVisit es
      → (l : Lists Exprs) (n : ℕ) (e : Option ErrorData) → Below n l
      → n + (2 + (cost_all ks + cost_all es)) < 2 ^ 64
      → AreWellFormed lib ks
      → AreWellFormed lib es
      → let p = n + 1 + cost_all ks in
        (make_field_list (visit_exprs lib ks n (state ((n, no_exprs) ∷ l) (n + 1) e))
          ≡ (p, state ((p, no_exprs) ∷ (n, to_exprs lib ks) ∷ l) (p + 1) e))
        × (visit_exprs lib es p (state ((p, no_exprs) ∷ (n, to_exprs lib ks) ∷ l) (p + 1) e)
            ≡ state ((p, to_exprs lib es) ∷ (n, to_exprs lib ks) ∷ l) (p + 1 + cost_all es) e)
  pair_fresh ks es kv ev l n e b h wk we =
      let p = n + 1 + cost_all ks in
      let below : Below p ((n, to_exprs lib ks) ∷ l) =
        (omega arith, Below-mono n p l (omega arith) b) in
      (
        ap make_field_list (exprs_fresh ks kv l n e b (omega arith) wk)
            ∙ make_state ((n, to_exprs lib ks) ∷ l) p e below (omega arith),
        exprs_fresh es ev ((n, to_exprs lib ks) ∷ l) p e below (omega arith) we,
      )

  mutual
    unfolding visit_expr to_expr cost IsWellFormed snoc_expr append_exprs

    expr_visit : (x : KernelExpr) → ExprVisit x
    expr_visit (literal x) sib l n e xs h b c w = rw (add-zero n) (literal_state l n e sib xs h x)
    expr_visit (column name) sib l n e xs h b c w =
        rw (add-zero n) (column_state l n e sib xs h name)
    expr_visit (decimal ms ls p s) sib l n e xs h b c w =
        let same = decimal_argument-hugeint lib.overflow ms ls p (w.1) in
        let accepted = subst (λ z. is_ok (lib.make_decimal z p s) ≡ true) (sym same) (w.0) in
        rw (add-zero n) (
          decimal_state l n e sib xs h lib ms ls p s accepted
          ∙ ap (λ z. state (update sib (snoc_expr (plain (made (lib.make_decimal z p s)))) l) n e)
              same)
    expr_visit (node nd es) sib l n e xs h b c w =
        rw
          (
            make_state l n e b (omega arith),
            exprs_fresh es (exprs_visit es) l n e b (omega arith) w.1,
          )
          (node_state l (n + 1 + cost_all es) e sib xs h nd n (to_exprs lib es) w.0
            ∙ same_id _ e (n + 1 + cost_all es) (n + (1 + cost_all es)) (omega arith))
    expr_visit (struct_literal ks es) sib l n e xs h b c w =
        let p = n + 1 + cost_all ks in
        let (first, second) =
          pair_fresh ks es (exprs_visit ks) (exprs_visit es) l n e b (omega arith) w.1 w.2 in
        rw (make_state l n e b (omega arith), first, second)
          (struct_state l (p + 1 + cost_all es) e sib xs h lib n p (to_exprs lib ks)
              (to_exprs lib es) (omega arith) w.0
            ∙ same_id _ e (p + 1 + cost_all es) (n + (2 + (cost_all ks + cost_all es)))
                (omega arith))
    expr_visit (map_literal ks es) sib l n e xs h b c w =
        let p = n + 1 + cost_all ks in
        let (first, second) =
          pair_fresh ks es (exprs_visit ks) (exprs_visit es) l n e b (omega arith) w.2 w.3 in
        rw (make_state l n e b (omega arith), first, second)
          (map_state l (p + 1 + cost_all es) e sib xs h n p (to_exprs lib ks) (to_exprs lib es)
              (omega arith) w.0 w.1
            ∙ same_id _ e (p + 1 + cost_all es) (n + (2 + (cost_all ks + cost_all es)))
                (omega arith))

    exprs_visit : (xs : KernelExprs) → ExprsVisit xs
    exprs_visit no_children sib l n e ys h b c w =
        rw (add-zero n, update-same sib (λ zs. append_exprs zs no_exprs) l append-no_exprs) refl
    exprs_visit (child x xs) sib l n e ys h b c w =
        rw
          (
            expr_visit x sib l n e ys h b (omega arith) w.0,
            exprs_visit xs sib (update sib (snoc_expr (to_expr lib x)) l) (n + cost x) e
                (snoc_expr (to_expr lib x) ys) (lookup-update_self sib _ ys l h)
                (Below-update (n + cost x) sib _ l (Below-mono n (n + cost x) l (omega arith) b))
                (omega arith) w.1,
          )
          (ap (λ q. state q (n + cost x + cost_all xs) e)
              (update-update sib _ _ l
                ∙ ap (λ f. update sib f l)
                    (fun_ext (λ zs. append_exprs-snoc_expr (to_expr lib x) zs _)))
            ∙ same_id _ e (n + cost x + cost_all xs) (n + (cost x + cost_all xs)) (omega arith))

taken : (es : Exprs) (m : ℕ) → finish 1 (state ((1, es) ∷ []) m none) ≡ ok (some es)
unfolding finish
taken es m = refl

-- Reading an expression through the documented sequence of callbacks yields exactly that
-- expression, at every depth, for every well-formed expression: comparisons of two operands, structs
-- with as many names as values, maps of constants, and decimals that DuckDB accepts, each read as the
-- number that its two halves stand for. Decimals with a precision below 18 are not negative here and fit 63
-- bits. A column's name is read without its back-quotes. The number of lists that the visit allocates must fit
-- the identifiers.
pub visit_kernel_expression-to_exprs :
    (lib : Library) (expression : KernelExprs)
    → 2 + cost_all expression < 2 ^ 64
    → AreWellFormed lib expression
    → visit_kernel_expression lib expression ≡ ok (some (to_exprs lib expression))
unfolding visit_kernel_expression
visit_kernel_expression-to_exprs lib xs h w =
    rw (exprs_fresh lib xs (exprs_visit lib xs) [] 1 none tt (omega arith) w)
      (taken (to_exprs lib xs) (1 + 1 + cost_all xs))

-- A comparison whose child list does not hold exactly two operands is reported as an error, and a
-- placeholder is appended in its place.
pub visit_binary_expression_arity :
    (t : ExpressionType) (l : Lists Exprs) (m n sib : ℕ) (e : Option ErrorData) (es xs : Exprs)
    → operands es ≡ none
    → lookup sib l ≡ some xs
    → let v = visit_binary_expression t n sib (state ((n, es) ∷ l) m e) in
      (v.error ≢ none)
      × (v.inflight ≡ record { inflight_lists = update sib (snoc_expr forty_two) l; next_id = m })
unfolding visit_binary_expression
visit_binary_expression_arity t l m n sib e es xs a h = (
  ground (arith, take_state l m e n es),
  ground (arith, take_state l m e n es, append_state l m e sib forty_two xs h),
)
