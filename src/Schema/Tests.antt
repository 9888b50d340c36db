-- ===== src/Schema/Tests.antt =====
-- A nested schema read through the callbacks, and the theorems there.
use duckdb_delta.Prelude.{◌≡◌, refl, some, none, codes, ok, arith}
use duckdb_delta.Inflight.{lookup}
use duckdb_delta.Types.{snoc, Fields, field, end, list, struct, bigint, varchar, timestamp_tz}
use duckdb_delta.Schema.{Primitive, visit_simple_type, visit_struct, visit_array, start}
use duckdb_delta.Schema.Kernel.{
  KernelFields, primitive, struct_type, array_type, none_left, column, visit_snapshot_schema,
  to_fields,
}
use duckdb_delta.Schema.States.{cost}
use duckdb_delta.Schema.Built.{visit_snapshot_schema-to_fields, visit_array_missing}

abbrev nested : KernelFields
nested = column (codes "id") (primitive Primitive.long) (
    column (codes "tags") (array_type (primitive Primitive.string)) (
      column (codes "at")
        (struct_type (column (codes "t") (primitive Primitive.timestamp) none_left)) none_left))

abbrev nested_fields : Fields
nested_fields = field (codes "id") bigint (
    field (codes "tags") (list varchar)
      (field (codes "at") (struct (field (codes "t") timestamp_tz end)) end))

schema_runs : visit_snapshot_schema nested ≡ some (ok nested_fields)
unfolding visit_snapshot_schema visit_simple_type visit_struct visit_array snoc
schema_runs = refl

visit_snapshot_schema-to_fields_example :
    visit_snapshot_schema nested ≡ some (ok (to_fields nested))
unfolding cost
visit_snapshot_schema-to_fields_example = visit_snapshot_schema-to_fields nested (omega arith)

visit_array_missing_runs : visit_array 7 1 (codes "a") start ≡ none
unfolding start lookup
visit_array_missing_runs = visit_array_missing 7 1 (codes "a") start refl
