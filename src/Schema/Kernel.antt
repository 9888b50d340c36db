-- ===== src/Schema/Kernel.antt =====
-- The order in which the kernel visits a schema, as the comment on `EngineSchemaVisitor` in
-- delta_kernel_ffi.hpp documents it: a list is allocated before a schema or a complex type, its
-- children are visited into it, and then the element itself is visited with that list.
use duckdb_delta.Prelude.{ℕ, Option, none, some, Str, codes, Result}
use duckdb_delta.Types.{LogicalType, Fields, end, field, decimal, struct, list, map}
use duckdb_delta.Schema.{
  SchemaVisitor, Primitive, simple_type, make_field_list, visit_simple_type, visit_decimal,
  visit_struct, visit_array, visit_map, start, finish,
}

mutual
  pub data KernelType : Type 0 where
    primitive : Primitive → KernelType
    decimal_type : ℕ → ℕ → KernelType
    struct_type : KernelFields → KernelType
    array_type : KernelType → KernelType
    map_type : KernelType → KernelType → KernelType

  pub data KernelFields : Type 0 where
    none_left : KernelFields
    column : Str → KernelType → KernelFields → KernelFields

abbrev pub ◌>>=◌ {ℓ κ} : {A : Type ℓ} {B : Type κ} → Option A → (A → Option B) → Option B

infixl 5 ◌>>=◌
none >>= f = none
some a >>= f = f a

unfoldable mutual
  pub visit_type : KernelType → ℕ → Str → SchemaVisitor → Option SchemaVisitor
  visit_type (primitive p) sibling name v = some (visit_simple_type p sibling name v)
  visit_type (decimal_type p s) sibling name v = some (visit_decimal p s sibling name v)
  visit_type (struct_type fs) sibling name v =
      let (id, v') = make_field_list v in
      visit_fields fs id v' >>= λ w. some (visit_struct id sibling name w)
  visit_type (array_type t) sibling name v =
      let (id, v') = make_field_list v in
      visit_type t id (codes "array_element") v' >>= λ w. visit_array id sibling name w
  visit_type (map_type k t) sibling name v =
      let (id, v') = make_field_list v in
      visit_type k id (codes "map_key") v' >>= λ w.
      visit_type t id (codes "map_value") w >>= λ u. some (visit_map id sibling name u)

  pub visit_fields : KernelFields → ℕ → SchemaVisitor → Option SchemaVisitor
  visit_fields none_left sibling v = some v
  visit_fields (column name t fs) sibling v =
      visit_type t sibling name v >>= λ w. visit_fields fs sibling w

-- `visit_schema` between the constructor of the visitor and the end of the entry points.
unfoldable pub visit_snapshot_schema : KernelFields → Option (Result Fields)
unfolding start make_field_list finish visit_fields
visit_snapshot_schema schema =
    let (id, v) = make_field_list start in visit_fields schema id v >>= λ w. some (finish id w)

-- The type that a kernel type stands for.
unfoldable mutual
  pub to_logical : KernelType → LogicalType
  to_logical (primitive p) = simple_type p
  to_logical (decimal_type p s) = decimal p s
  to_logical (struct_type fs) = struct (to_fields fs)
  to_logical (array_type t) = list (to_logical t)
  to_logical (map_type k t) =
      map (field (codes "map_key") (to_logical k) (field (codes "map_value") (to_logical t) end))

  pub to_fields : KernelFields → Fields
  to_fields none_left = end
  to_fields (column name t fs) = field name (to_logical t) (to_fields fs)
