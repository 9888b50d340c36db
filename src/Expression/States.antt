-- ===== src/Expression/States.antt =====
-- The states of the visitor between two callbacks.
use duckdb_delta.Prelude.{
  ℕ, ◌+◌, ◌^◌, ◌<◌, ◌≡◌, refl, ap, Option, some, ◌∷◌, Str, true, false, arith, ErrorData, ℤ, codes,
  ◌==◌,
}
use duckdb_delta.Values.{
  Expr, Exprs, constant, column_ref, function, count_exprs, no_exprs, then_expr, snoc_expr,
  append_exprs, plain,
}
use duckdb_delta.Types.{invalid}
use duckdb_delta.Inflight.{Lists, lookup, update}
use duckdb_delta.Inflight.Laws.{Below, append_lem, lookup-fresh}
use duckdb_delta.Expression.{
  ExpressionVisitor, make_field_list, append_to_list, take_field_list, visit_node, Node, add,
}
use duckdb_delta.Expression.Literals.{
  Library, Literal, literal_value, decimal_argument, visit_literal, unquote,
  visit_column_expression, visit_decimal_literal, visit_struct_literal, visit_literal_map,
  set_aliases, constants,
}
use duckdb_delta.Expression.Kernel.{node_body, has_arity, is_some, is_ok, made, map_body}

pub append-no_exprs : (es : Exprs) → append_exprs es no_exprs ≡ es
unfolding append_exprs
append-no_exprs no_exprs = refl
append-no_exprs (then_expr e es) = ap (then_expr e) (append-no_exprs es)

pub append_exprs-snoc_expr :
    (e : Expr) (es fs : Exprs) → append_exprs (snoc_expr e es) fs ≡ append_exprs es (then_expr e fs)
unfolding append_exprs snoc_expr
append_exprs-snoc_expr e no_exprs fs = refl
append_exprs-snoc_expr e (then_expr f es) fs = ap (then_expr f) (append_exprs-snoc_expr e es fs)

-- A visitor from its parts.
abbrev pub state : Lists Exprs → ℕ → Option ErrorData → ExpressionVisitor
state l n e = record { inflight = record { inflight_lists = l; next_id = n }; error = e }

pub make_state :
    (l : Lists Exprs) (n : ℕ) (e : Option ErrorData)
    → Below n l
    → n + 1 < 2 ^ 64
    → make_field_list (state l n e) ≡ (n, state ((n, no_exprs) ∷ l) (n + 1) e)
unfolding make_field_list
make_state l n e b h = ground (arith, lookup-fresh n l b)

module _ (l : Lists Exprs) (m : ℕ) (e : Option ErrorData) where
  pub append_state :
      (sib : ℕ) (x : Expr) (xs : Exprs)
      → lookup sib l ≡ some xs
      → append_to_list sib x (state l m e) ≡ state (update sib (snoc_expr x) l) m e
  unfolding append_to_list
  append_state sib x xs h =
      rw (append_lem sib (snoc_expr x) xs (record { inflight_lists = l; next_id = m }) h)

  pub take_state :
      (n : ℕ) (es : Exprs) → take_field_list n (state ((n, es) ∷ l) m e) ≡ (some es, state l m e)
  unfolding take_field_list
  take_state n es = ground arith

  take_second :
      (n p : ℕ) (es fs : Exprs)
      → n < p
      → take_field_list n (state ((p, fs) ∷ (n, es) ∷ l) m e) ≡ (some es, state ((p, fs) ∷ l) m e)
  unfolding take_field_list
  take_second n p es fs h = ground arith

module _ (l : Lists Exprs) (m : ℕ) (e : Option ErrorData) (sib : ℕ) (xs : Exprs)
    (h : lookup sib l ≡ some xs) where
  pub node_state :
      (nd : Node) (n : ℕ) (es : Exprs)
      → has_arity nd es ≡ true
      → visit_node nd n sib (state ((n, es) ∷ l) m e)
        ≡ state (update sib (snoc_expr (plain (node_body nd es))) l) m e
  unfolding visit_node
  node_state add n es a = ground (arith, take_state l m e n es, append_state l m e sib _ xs h)
  node_state nd n es a =
      ground (arith, take_state l m e n es, append_state l m e sib (plain (node_body nd es)) xs h)

  pub literal_state :
      (x : Literal)
      → visit_literal x sib (state l m e)
        ≡ state (update sib (snoc_expr (plain (constant (literal_value x)))) l) m e
  unfolding visit_literal
  literal_state x = append_state l m e sib (plain (constant (literal_value x))) xs h

  pub column_state :
      (name : Str)
      → visit_column_expression name sib (state l m e)
        ≡ state (update sib (snoc_expr (plain (column_ref (unquote name)))) l) m e
  unfolding visit_column_expression
  column_state name = append_state l m e sib (plain (column_ref (unquote name))) xs h

  pub struct_state :
      (lib : Library) (n p : ℕ) (ks es : Exprs)
      → n < p
      → (count_exprs es == count_exprs ks) ≡ true
      → visit_struct_literal lib n p sib (state ((p, es) ∷ (n, ks) ∷ l) m e)
        ≡ state
            (update sib
              (snoc_expr
                (plain (function (codes "struct_pack") (set_aliases lib.to_string ks es) false)))
              l)
            m
            e
  unfolding visit_struct_literal
  struct_state lib n p ks es ord a = ground (
    arith,
    take_second l m e n p ks es,
    take_state l m e p es,
    append_state l m e sib
        (plain (function (codes "struct_pack") (set_aliases lib.to_string ks es) false)) xs h,
  )

  pub map_state :
      (n p : ℕ) (ks es : Exprs)
      → n < p
      → is_some (constants ks invalid) ≡ true
      → is_some (constants es invalid) ≡ true
      → visit_literal_map n p sib (state ((p, es) ∷ (n, ks) ∷ l) m e)
        ≡ state
            (update sib
              (snoc_expr (plain (map_body (constants ks invalid) (constants es invalid))))
              l)
            m
            e
  unfolding visit_literal_map
  map_state n p ks es ord a b = ground (
    arith,
    take_second l m e n p ks es,
    take_state l m e p es,
    append_state l m e sib (plain (map_body (constants ks invalid) (constants es invalid))) xs h,
  )

  pub decimal_state :
      (lib : Library) (ms : ℤ) (ls p s : ℕ)
      → is_ok (lib.make_decimal (decimal_argument lib.overflow ms ls p) p s) ≡ true
      → visit_decimal_literal lib ms ls p s sib (state l m e)
        ≡ state
            (update sib
              (snoc_expr
                (plain (made (lib.make_decimal (decimal_argument lib.overflow ms ls p) p s))))
              l)
            m
            e
  unfolding visit_decimal_literal
  decimal_state lib ms ls p s a = ground (
    arith,
    append_state l m e sib
        (plain (made (lib.make_decimal (decimal_argument lib.overflow ms ls p) p s))) xs h,
  )
