-- ===== src/Schema/Built.antt =====
-- The documented visit of any schema leaves exactly that schema in the visitor, and nothing else.
use mathlib.Core.Path.{fun_ext}
use native.Mathlib.Nat.{add-zero}
use duckdb_delta.Prelude.{
  ℕ, ◌+◌, ◌^◌, ◌<◌, ◌≡◌, refl, ap, ◌∙◌, Option, none, some, [], ◌∷◌, Str, codes, arith, ok,
  ErrorData,
}
use duckdb_delta.Types.{Fields, end, field, snoc, append}
use duckdb_delta.Inflight.{Lists, lookup, update}
use duckdb_delta.Inflight.Laws.{
  Below, Below-mono, Below-update, lookup-update_self, update-update, update_head, update-same,
  lookup_head,
}
use duckdb_delta.Schema.{SchemaVisitor, visit_array, finish}
use duckdb_delta.Schema.Kernel.{
  KernelType, KernelFields, primitive, decimal_type, struct_type, array_type, map_type, none_left,
  column, visit_type, visit_fields, visit_snapshot_schema, to_logical, to_fields,
}
use duckdb_delta.Schema.States.{
  append-end, append-snoc, cost, cost_fields, state, make_state, struct_state, map_state,
  array_state, simple_state, decimal_state,
}

abbrev TypeVisit : KernelType → Type 0
TypeVisit t =
    (sib : ℕ) (name : Str) (l : Lists Fields) (n : ℕ) (e : Option ErrorData) (xs : Fields)
    → lookup sib l ≡ some xs
    → Below n l
    → n + cost t < 2 ^ 64
    → visit_type t sib name (state l n e)
      ≡ some (state (update sib (snoc name (to_logical t)) l) (n + cost t) e)

abbrev FieldsVisit : KernelFields → Type 0
FieldsVisit fs =
    (sib : ℕ) (l : Lists Fields) (n : ℕ) (e : Option ErrorData) (xs : Fields)
    → lookup sib l ≡ some xs
    → Below n l
    → n + cost_fields fs < 2 ^ 64
    → visit_fields fs sib (state l n e)
      ≡ some (state (update sib (λ ys. append ys (to_fields fs)) l) (n + cost_fields fs) e)

-- A visit into a fresh list.
fields_fresh :
    (fs : KernelFields)
    → FieldsVisit fs
    → (l : Lists Fields) (n : ℕ) (e : Option ErrorData) → Below n l
    → n + 1 + cost_fields fs < 2 ^ 64
    → visit_fields fs n (state ((n, end) ∷ l) (n + 1) e)
      ≡ some (state ((n, to_fields fs) ∷ l) (n + 1 + cost_fields fs) e)
unfolding append
fields_fresh fs ih l n e b h =
    ih n ((n, end) ∷ l) (n + 1) e end (lookup_head n end l)
      (omega arith, Below-mono n (n + 1) l (omega arith) b) h
    ∙ ap (λ k. some (state k (n + 1 + cost_fields fs) e)) (update_head n _ end l)

type_fresh :
    (t : KernelType)
    → TypeVisit t
    → (name : Str) (xs : Fields) (l : Lists Fields) (n m : ℕ) (e : Option ErrorData) → n < m
    → Below m l
    → m + cost t < 2 ^ 64
    → visit_type t n name (state ((n, xs) ∷ l) m e)
      ≡ some (state ((n, snoc name (to_logical t) xs) ∷ l) (m + cost t) e)
type_fresh t ih name xs l n m e lt b h =
    ih n name ((n, xs) ∷ l) m e xs (lookup_head n xs l) (lt, b) h
    ∙ ap (λ k. some (state k (m + cost t) e)) (update_head n _ xs l)

same_id :
    (l : Lists Fields) (e : Option ErrorData) (m n : ℕ)
    → m ≡ n
    → some (state l m e) ≡ some (state l n e)
same_id l e m n h = ap (λ k. some (state l k e)) h

mutual
  unfolding visit_type to_logical cost snoc append

  type_visit : (t : KernelType) → TypeVisit t
  type_visit (primitive p) sib name l n e xs h b c =
      rw (add-zero n) (ap some (simple_state l n n e sib name xs h p))
  type_visit (decimal_type p s) sib name l n e xs h b c =
      rw (add-zero n) (ap some (decimal_state l n n e sib name xs h p s))
  type_visit (struct_type fs) sib name l n e xs h b c =
      rw (make_state l n e b (omega arith), fields_fresh fs (fields_visit fs) l n e b (omega arith))
        (ap some (struct_state l n (n + 1 + cost_fields fs) e sib name xs h (to_fields fs))
          ∙ same_id _ e (n + 1 + cost_fields fs) (n + (1 + cost_fields fs)) (omega arith))
  type_visit (array_type t) sib name l n e xs h b c =
      rw
        (
          make_state l n e b (omega arith),
          type_fresh t (type_visit t) (codes "array_element") end l n (n + 1) e (omega arith)
              (Below-mono n (n + 1) l (omega arith) b) (omega arith),
        )
        (array_state l n (n + 1 + cost t) e sib name xs h (codes "array_element") (to_logical t)
          ∙ same_id _ e (n + 1 + cost t) (n + (1 + cost t)) (omega arith))
  type_visit (map_type k t) sib name l n e xs h b c =
      rw
        (
          make_state l n e b (omega arith),
          type_fresh k (type_visit k) (codes "map_key") end l n (n + 1) e (omega arith)
              (Below-mono n (n + 1) l (omega arith) b) (omega arith),
          type_fresh t (type_visit t) (codes "map_value")
              (field (codes "map_key") (to_logical k) end) l n (n + 1 + cost k) e (omega arith)
              (Below-mono n (n + 1 + cost k) l (omega arith) b) (omega arith),
        )
        (ap some (map_state l n (n + 1 + cost k + cost t) e sib name xs h _)
          ∙ same_id _ e (n + 1 + cost k + cost t) (n + (1 + (cost k + cost t))) (omega arith))

  fields_visit : (fs : KernelFields) → FieldsVisit fs
  fields_visit none_left sib l n e xs h b c =
      rw (add-zero n, update-same sib (λ ys. append ys end) l append-end) refl
  fields_visit (column name t fs) sib l n e xs h b c =
      rw
        (
          type_visit t sib name l n e xs h b (omega arith),
          fields_visit fs sib (update sib (snoc name (to_logical t)) l) (n + cost t) e
              (snoc name (to_logical t) xs) (lookup-update_self sib _ xs l h)
              (Below-update (n + cost t) sib _ l (Below-mono n (n + cost t) l (omega arith) b))
              (omega arith),
        )
        (ap (λ q. some (state q (n + cost t + cost_fields fs) e))
            (update-update sib _ _ l
              ∙ ap (λ f. update sib f l) (fun_ext (λ ys. append-snoc name (to_logical t) ys _)))
          ∙ same_id _ e (n + cost t + cost_fields fs) (n + (cost t + cost_fields fs)) (omega arith))

take_first : (fs : Fields) (m : ℕ) → finish 1 (state ((1, fs) ∷ []) m none) ≡ ok fs
unfolding finish
take_first fs m = refl

-- Reading a schema through the documented sequence of callbacks yields exactly that schema: every
-- column in order with its name and its type, at every depth of nesting. The number of lists that
-- the visit allocates must fit the identifiers.
pub visit_snapshot_schema-to_fields :
    (schema : KernelFields)
    → 2 + cost_fields schema < 2 ^ 64
    → visit_snapshot_schema schema ≡ some (ok (to_fields schema))
unfolding visit_snapshot_schema
visit_snapshot_schema-to_fields schema h =
    rw (fields_fresh schema (fields_visit schema) [] 1 none tt (omega arith))
      (ap some (take_first (to_fields schema) (1 + 1 + cost_fields schema)))

-- An array whose child list is unknown to the visitor reads the front of an empty vector, before the
-- entry point could look at the recorded error.
pub visit_array_missing :
    (id sib : ℕ) (name : Str) (v : SchemaVisitor)
    → lookup id v.inflight.inflight_lists ≡ none
    → visit_array id sib name v ≡ none
unfolding visit_array
visit_array_missing id sib name v h = ground arith
