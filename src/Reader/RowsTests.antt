-- ===== src/Reader/RowsTests.antt =====
-- A list with a file that has a deletion vector, and the rows of this file.
use duckdb_delta.Prelude.{◌≡◌, refl, none, some, true, false, [], ◌∷◌, codes, take, length, arith}
use duckdb_delta.Errors.{ok_result}
use duckdb_delta.Types.{end}
use duckdb_delta.Columns.{no_columns}
use duckdb_delta.DeleteFilter.{filter}
use duckdb_delta.DeleteFilter.Selection.{kept}
use duckdb_delta.FileList.State.{ScanFile, DeltaMultiFileList, create}
use duckdb_delta.FileList.Expand.{get_file_internal}
use duckdb_delta.FileList.Seen.{AreDescribed, all_files}
use duckdb_delta.Fixtures.{kernel}
use duckdb_delta.Reader.Host.{FileReader, ReaderData}
use duckdb_delta.Reader.Constants.{finalize_bind}
use duckdb_delta.Reader.Rows.{finalize_bind-kept}
use duckdb_delta.Reader.Transform.{finalize_bind-transform}
use duckdb_delta.Reader.Bound.{constants_of}
use duckdb_delta.Reader.Files.{IsCast}
use duckdb_delta.Reader.Constants.{column_at}
use duckdb_delta.Reader.Tests.{host, global_columns}
use duckdb_delta.Prelude.{pos, ok}
use duckdb_delta.Types.{integer}
use duckdb_delta.Values.{
  Value, string, integer_value, Exprs, no_exprs, then_expr, plain, function, snoc_expr, column_ref,
  constant,
}
use duckdb_delta.Expression.{Node, visit_node}
use duckdb_delta.Expression.Literals.{
  string_literal, unquote, visit_literal, visit_column_expression,
}
use duckdb_delta.Expression.Kernel.{
  KernelExprs, no_children, child, node, column, literal, visit_kernel_expression,
}
use duckdb_delta.FileList.Callback.{get_partition_value_from_expression}

abbrev with_vector : ScanFile
with_vector = record {
  path = codes "v";
  stats = some 3;
  selection_vector = ok_result (some (true ∷ false ∷ []));
  transform = none;
}

abbrev listed : DeltaMultiFileList
listed = record (create (codes "d/")) {
  initialized_snapshot = true;
  initialized_scan = true;
  scan_data_iterator = record { files = with_vector ∷ []; have_scan_data = ok_result true } ∷ [];
}

abbrev reader : FileReader
reader = record {
  file_name = codes "d/v";
  file_list_idx = 0;
  columns = end;
  deletion_filter = none;
}

abbrev bound : ReaderData
bound = record { constant_map = []; deletion_filter = some (true ∷ false ∷ []) }

finalize_bind-kept_example :
    (bound.deletion_filter ≡ some (true ∷ false ∷ []))
    × (let (selected, result) = filter (true ∷ false ∷ []) 0 3 (9 ∷ 9 ∷ 9 ∷ []) in
        (selected ≡ length (kept (true ∷ false ∷ []) 0 0 3))
        × ((take selected result ≡ kept (true ∷ false ∷ []) 0 0 3) × (length result ≡ 3)))
unfolding AreDescribed all_files get_file_internal create finalize_bind
finalize_bind-kept_example =
    finalize_bind-kept kernel (with_vector ∷ []) listed ((get_file_internal kernel 0 listed).1)
      (codes "d/v") with_vector (true ∷ false ∷ []) host false none reader no_columns [] bound 0 3
      (9 ∷ 9 ∷ 9 ∷ []) ([], ((refl, refl), (((refl, (refl, refl)), tt), refl))) refl refl refl refl
      refl (omega arith) (omega arith)

-- The transform of a file in a table with the columns i and Part, of which the second is a partition.
abbrev transform : KernelExprs
transform =
    child
      (node Node.struct_expr
        (child (column (codes "i")) (child (literal (string_literal (codes "4"))) no_children)))
      no_children

abbrev parsed : Exprs
parsed =
    then_expr
      (plain (
        function (codes "struct_pack")
          (then_expr (plain (column_ref (codes "i")))
            (then_expr (plain (constant (string (codes "4")))) no_exprs))
          false))
      no_exprs

abbrev with_transform : ScanFile
with_transform = record with_vector { transform = some transform }

abbrev partitioned : DeltaMultiFileList
partitioned = record listed {
  partitions = codes "part" ∷ [];
  partition_ids = 1 ∷ [];
  scan_data_iterator = record { files = with_transform ∷ []; have_scan_data = ok_result true } ∷ [];
}

abbrev constant_bound : ReaderData
constant_bound = record {
  constant_map = (0, integer_value (pos 4)) ∷ [];
  deletion_filter = some (true ∷ false ∷ []);
}

visits : visit_kernel_expression kernel.library transform ≡ ok (some parsed)
unfolding visit_kernel_expression unquote visit_node visit_literal visit_column_expression snoc_expr
visits = refl

finalize_bind-transform_example :
    (v : Value) × ((get_partition_value_from_expression parsed 1 ≡ ok v)
      × IsCast host integer (some v) (constants_of 0 constant_bound.constant_map))
unfolding AreDescribed all_files get_file_internal create finalize_bind column_at unquote visit_node
    visit_literal visit_column_expression snoc_expr
finalize_bind-transform_example =
    finalize_bind-transform kernel (with_transform ∷ []) partitioned
      ((get_file_internal kernel 0 partitioned).1) (codes "d/v") with_transform transform parsed
      host none reader global_columns (1 ∷ []) constant_bound 0 1 0 1 (codes "part") (codes "Part")
      integer ([], ((refl, refl), (((refl, (refl, refl)), tt), refl))) refl refl refl refl visits
      refl (tt, tt) refl refl refl ((refl, refl), refl, refl) refl refl
