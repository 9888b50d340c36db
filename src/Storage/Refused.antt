-- ===== src/Storage/Refused.antt =====
-- The statements that a Delta catalog and its schema refuse (storage/delta_catalog.cpp,
-- storage/delta_schema_entry.cpp). What each would return is `A`.
use duckdb_delta.Prelude.{codes, throw, binder, not_implemented, Result}

module _ {A : Type 0} where
  unfoldable pub create_table : Result A
  create_table = throw binder (codes "Delta tables do not support creating tables")

  unfoldable pub create_function : Result A
  create_function = throw binder (codes "Delta tables do not support creating functions")

  unfoldable pub create_index : Result A
  create_index = throw not_implemented (codes "CreateIndex")

  unfoldable pub create_view : Result A
  create_view = throw binder (codes "Delta tables do not support creating views")

  unfoldable pub create_type : Result A
  create_type = throw binder (codes "Delta databases do not support creating types")

  unfoldable pub create_sequence : Result A
  create_sequence = throw binder (codes "Delta databases do not support creating sequences")

  unfoldable pub create_table_function : Result A
  create_table_function =
      throw binder (codes "Delta databases do not support creating table functions")

  unfoldable pub create_copy_function : Result A
  create_copy_function =
      throw binder (codes "Delta databases do not support creating copy functions")

  unfoldable pub create_pragma_function : Result A
  create_pragma_function =
      throw binder (codes "Delta databases do not support creating pragma functions")

  unfoldable pub create_collation : Result A
  create_collation = throw binder (codes "Delta databases do not support creating collations")

  unfoldable pub alter : Result A
  alter = throw not_implemented (codes "Delta tables do not support altering")

  unfoldable pub scan_without_context : Result A
  scan_without_context = throw not_implemented (codes "Scan without context not supported")

  unfoldable pub drop_entry : Result A
  drop_entry = throw not_implemented (codes "Delta tables do not support dropping")

  unfoldable pub create_schema : Result A
  create_schema = throw binder (codes "Delta tables do not support creating new schemas")

  unfoldable pub drop_schema : Result A
  drop_schema = throw binder (codes "Delta tables do not support dropping schemas")

  unfoldable pub plan_insert : Result A
  plan_insert = throw not_implemented (codes "DeltaCatalog PlanInsert")

  unfoldable pub plan_create_table_as : Result A
  plan_create_table_as = throw not_implemented (codes "DeltaCatalog PlanCreateTableAs")

  unfoldable pub plan_delete : Result A
  plan_delete = throw not_implemented (codes "DeltaCatalog PlanDelete")

  unfoldable pub plan_update : Result A
  plan_update = throw not_implemented (codes "DeltaCatalog PlanUpdate")

  unfoldable pub bind_create_index : Result A
  bind_create_index = throw not_implemented (codes "DeltaCatalog BindCreateIndex")
