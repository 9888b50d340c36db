-- ===== src/Schema/States.antt =====
-- The states of the schema visitor between two callbacks.
use duckdb_delta.Prelude.{ℕ, ◌+◌, ◌^◌, ◌<◌, ◌≡◌, refl, ap, Option, some, ◌∷◌, Str, arith, ErrorData}
use duckdb_delta.Types.{LogicalType, Fields, end, field, decimal, struct, list, map, snoc, append}
use duckdb_delta.Inflight.{Lists, lookup, update}
use duckdb_delta.Inflight.Laws.{Below, append_lem, lookup-fresh}
use duckdb_delta.Schema.{
  SchemaVisitor, Primitive, simple_type, make_field_list, append_to_list, take_field_list,
  visit_simple_type, visit_decimal, visit_struct, visit_array, visit_map,
}
use duckdb_delta.Schema.Kernel.{
  KernelType, KernelFields, primitive, decimal_type, struct_type, array_type, map_type, none_left,
  column,
}

pub append-end : (fs : Fields) → append fs end ≡ fs
unfolding append
append-end end = refl
append-end (field n t fs) = ap (field n t) (append-end fs)

pub append-snoc :
    (n : Str) (t : LogicalType) (fs gs : Fields)
    → append (snoc n t fs) gs ≡ append fs (field n t gs)
unfolding append snoc
append-snoc n t end gs = refl
append-snoc n t (field m u fs) gs = ap (field m u) (append-snoc n t fs gs)

-- The number of lists that a visit allocates.
unfoldable mutual
  pub cost : KernelType → ℕ
  cost (primitive p) = 0
  cost (decimal_type p s) = 0
  cost (struct_type fs) = 1 + cost_fields fs
  cost (array_type t) = 1 + cost t
  cost (map_type k t) = 1 + (cost k + cost t)

  pub cost_fields : KernelFields → ℕ
  cost_fields none_left = 0
  cost_fields (column n t fs) = cost t + cost_fields fs

-- A visitor from its parts.
abbrev pub state : Lists Fields → ℕ → Option ErrorData → SchemaVisitor
state l n e = record { inflight = record { inflight_lists = l; next_id = n }; error = e }

pub make_state :
    (l : Lists Fields) (n : ℕ) (e : Option ErrorData)
    → Below n l
    → n + 1 < 2 ^ 64
    → make_field_list (state l n e) ≡ (n, state ((n, end) ∷ l) (n + 1) e)
unfolding make_field_list
make_state l n e b h = ground (arith, lookup-fresh n l b)

module _ (l : Lists Fields) (n m : ℕ) (e : Option ErrorData) where
  append_state :
      (sib : ℕ) (name : Str) (child : LogicalType) (xs : Fields)
      → lookup sib l ≡ some xs
      → append_to_list sib name child (state l m e) ≡ state (update sib (snoc name child) l) m e
  unfolding append_to_list
  append_state sib name child xs h =
      rw (append_lem sib (snoc name child) xs (record { inflight_lists = l; next_id = m }) h)

  take_state : (fs : Fields) → take_field_list n (state ((n, fs) ∷ l) m e) ≡ (fs, state l m e)
  unfolding take_field_list
  take_state fs = ground arith

module _ (l : Lists Fields) (n m : ℕ) (e : Option ErrorData) (sib : ℕ) (name : Str) (xs : Fields)
    (h : lookup sib l ≡ some xs) where
  pub struct_state :
      (fs : Fields)
      → visit_struct n sib name (state ((n, fs) ∷ l) m e)
        ≡ state (update sib (snoc name (struct fs)) l) m e
  unfolding visit_struct
  struct_state fs = rw (take_state l n m e fs) (append_state l n m e sib name (struct fs) xs h)

  pub map_state :
      (fs : Fields)
      → visit_map n sib name (state ((n, fs) ∷ l) m e)
        ≡ state (update sib (snoc name (map fs)) l) m e
  unfolding visit_map
  map_state fs = rw (take_state l n m e fs) (append_state l n m e sib name (map fs) xs h)

  pub array_state :
      (k : Str) (t : LogicalType)
      → visit_array n sib name (state ((n, field k t end) ∷ l) m e)
        ≡ some (state (update sib (snoc name (list t)) l) m e)
  unfolding visit_array
  array_state k t =
      ground
        (arith, take_state l n m e (field k t end), append_state l n m e sib name (list t) xs h)

  pub simple_state :
      (p : Primitive)
      → visit_simple_type p sib name (state l m e)
        ≡ state (update sib (snoc name (simple_type p)) l) m e
  unfolding visit_simple_type
  simple_state p = append_state l n m e sib name (simple_type p) xs h

  pub decimal_state :
      (p s : ℕ)
      → visit_decimal p s sib name (state l m e)
        ≡ state (update sib (snoc name (decimal p s)) l) m e
  unfolding visit_decimal
  decimal_state p s = append_state l n m e sib name (decimal p s) xs h

-- What a visit does to a visitor that has the sibling list.
