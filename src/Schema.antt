-- ===== src/Schema.antt =====
-- `SchemaVisitor` (delta_utils.hpp, delta_utils.cpp): the callbacks by which the Delta kernel hands
-- over a table's schema, and the two entry points.
pub mod Kernel
pub mod States
pub mod Built
mod Tests
use duckdb_delta.Prelude.{ℕ, Option, none, some, Str, codes, ErrorData, Result, ok, err, internal}
use duckdb_delta.Types.{
  LogicalType, Fields, end, field, snoc, varchar, bigint, smallint, tinyint, blob, timestamp_tz,
  decimal, struct, list, map,
}
use duckdb_delta.Inflight
use duckdb_delta.Inflight.{Inflight}

pub record SchemaVisitor : Type 0 where
  pub inflight : Inflight Fields
  pub error : Option ErrorData

abbrev unhandled : Str → Option ErrorData
unhandled message = some (record { exception_type = internal; message = message })

unfoldable pub make_field_list : SchemaVisitor → ℕ × SchemaVisitor
unfolding Inflight.make_field_list
make_field_list v =
    let (id, s) = Inflight.make_field_list end v.inflight in (id, record v { inflight = s })

unfoldable pub append_to_list : ℕ → Str → LogicalType → SchemaVisitor → SchemaVisitor
unfolding Inflight.append_to_list
append_to_list id name child v = elim (Inflight.append_to_list id (snoc name child) v.inflight) [
  | none ↦ record v { error = unhandled (codes "Unhandled error in SchemaVisitor::AppendToList") }
  | some s ↦ record v { inflight = s }
]

-- A list that is not there is reported, and an empty one is returned in its place.
unfoldable pub take_field_list : ℕ → SchemaVisitor → Fields × SchemaVisitor
unfolding Inflight.take_field_list
take_field_list id v = elim (Inflight.take_field_list id v.inflight) [
  | none ↦ (
    end,
    record v { error = unhandled (codes "Unhandled error in SchemaVisitor::TakeFieldList") },
  )
  | some (fields, s) ↦ (fields, record v { inflight = s })
]

-- The primitive types that the kernel visits; `CreateSchemaVisitor` gives each its type.
pub data Primitive : Type 0 where
  string long integer short byte float double boolean binary date timestamp timestamp_ntz :
      Primitive

unfoldable pub simple_type : Primitive → LogicalType
simple_type Primitive.string = varchar
simple_type Primitive.long = bigint
simple_type Primitive.integer = LogicalType.integer
simple_type Primitive.short = smallint
simple_type Primitive.byte = tinyint
simple_type Primitive.float = LogicalType.float
simple_type Primitive.double = LogicalType.double
simple_type Primitive.boolean = LogicalType.boolean
simple_type Primitive.binary = blob
simple_type Primitive.date = LogicalType.date
simple_type Primitive.timestamp = timestamp_tz
simple_type Primitive.timestamp_ntz = LogicalType.timestamp

-- `VisitSimpleTypeImpl`, as `CreateSchemaVisitor` instantiates it.
unfoldable pub visit_simple_type : Primitive → ℕ → Str → SchemaVisitor → SchemaVisitor
unfolding append_to_list simple_type
visit_simple_type p sibling_list_id name v = append_to_list sibling_list_id name (simple_type p) v

unfoldable pub visit_decimal : ℕ → ℕ → ℕ → Str → SchemaVisitor → SchemaVisitor
unfolding append_to_list
visit_decimal precision scale sibling_list_id name v =
    append_to_list sibling_list_id name (decimal precision scale) v

unfoldable pub visit_struct : ℕ → ℕ → Str → SchemaVisitor → SchemaVisitor
unfolding append_to_list take_field_list
visit_struct child_list_id sibling_list_id name v =
    let (children, v') = take_field_list child_list_id v in
    append_to_list sibling_list_id name (struct children) v'

-- `children->front().second`; `none` is the read of the front of an empty vector.
unfoldable pub front_type : Fields → Option LogicalType
front_type end = none
front_type (field _ t _) = some t

-- `none`: the front of an empty vector is read. (The assertion on the size is compiled out of a release build.)
unfoldable pub visit_array : ℕ → ℕ → Str → SchemaVisitor → Option SchemaVisitor
unfolding append_to_list take_field_list front_type
visit_array child_list_id sibling_list_id name v =
    let (children, v') = take_field_list child_list_id v in
    elim (front_type children) [
      | none ↦ none
      | some t ↦ some (append_to_list sibling_list_id name (list t) v')
    ]

unfoldable pub visit_map : ℕ → ℕ → Str → SchemaVisitor → SchemaVisitor
unfolding append_to_list take_field_list
visit_map child_list_id sibling_list_id name v =
    let (children, v') = take_field_list child_list_id v in
    append_to_list sibling_list_id name (map children) v'

unfoldable pub start : SchemaVisitor
unfolding Inflight.start
start = record { inflight = Inflight.start; error = none }

-- The end of `VisitSnapshotSchema` and of `VisitSnapshotGlobalReadSchema`: `result` is the list that
-- the kernel's visit returned, and `v` the visitor that the visit left behind.
unfoldable pub finish : ℕ → SchemaVisitor → Result Fields
unfolding take_field_list
finish result v = elim v.error [ some e ↦ err e | none ↦ ok (take_field_list result v).0 ]
