-- ===== src/Fixtures.antt =====
-- A kernel and a library for the tests.
use duckdb_delta.Prelude.{none, [], ok, codes, pos}
use duckdb_delta.Types.{end}
use duckdb_delta.Values.{decimal_value}
use duckdb_delta.Errors.{ok_result}
use duckdb_delta.Columns.{no_columns}
use duckdb_delta.Schema.Kernel.{none_left}
use duckdb_delta.Expression.Literals.{Library}
use duckdb_delta.FileList.State.{Kernel}

abbrev no_library : Library
no_library = record {
  make_decimal = λ v w s. ok (decimal_value v w s);
  to_string = λ e. codes "e";
  overflow = pos 0;
}

abbrev pub kernel : Kernel
kernel = record {
  create_engine = λ p. ok 1;
  open_snapshot = λ p e. ok_result 2;
  snapshot_version = λ h. 5;
  snapshot_schema = λ h. none_left;
  open_scan = λ h e c f. (ok_result 3, none);
  table_root = λ s. codes "t/";
  iter_init = λ e s. ok_result [];
  partition_columns = λ h. [];
  physical_schema = λ s. ok end;
  logical_schema = λ s. ok end;
  columns_from_names_and_types = λ c. no_columns;
  library = no_library;
  garbage = 0;
}
