-- ===== src/Lib.antt =====
-- The DuckDB extension that reads Delta tables. It drives the Delta kernel, a native library: the
-- kernel reads the table's log, and calls back into the extension with the schema, with expressions
-- and with the data files; the extension hands DuckDB a lazily expanded list of files, and filters back
-- to the kernel. An attached table has a catalog, whose transactions pin a snapshot.
--
-- Where each part stands (paths from the repository's root):
-- - Prelude: shared helpers: native numbers, lists, byte strings, exceptions as values, integers.
-- - Paths: `url_decode`, `ToDuckDBPath`, `ToDeltaPath` and the path of a data file, from
--   src/functions/delta_scan/delta_multi_file_list.cpp.
-- - Errors: `DuckDBEngineError` and `KernelUtils::TryUnpackResult`, from src/delta_utils.cpp.
-- - Types, Values, Filters: DuckDB's types, values, expressions and table filters, as far as the
--   extension makes or reads them.
-- - Inflight: the numbered lists that both visitors keep while a tree is handed over.
-- - Schema: `SchemaVisitor` (src/delta_utils.cpp, src/include/delta_utils.hpp). Schema/Kernel has the order
--   in which src/include/delta_kernel_ffi.hpp documents the kernel's calls; Schema/Built the result.
-- - Expression: `ExpressionVisitor` of the same files, in the same way; Expression/Literals has the
--   literals, Expression/Decimals the numbers behind a decimal, Expression/TestFunction the test function
--   of src/functions/expression_functions.cpp.
-- - Predicate: `PredicateVisitor` of the same files.
-- - Columns: `ConstructGlobalColDefs` and `InjectColumnIdentifiers`, from
--   src/functions/delta_scan/delta_multi_file_list.cpp.
-- - FileList: `DeltaMultiFileList` and `ScanDataCallBack` of that file. FileList/State has the fields,
--   FileList/Callback the visit of a data file, FileList/Init the initialisation, FileList/Expand the
--   expansion; the other files have the proofs.
-- - DeleteFilter: `DeltaDeleteFilter`, from src/functions/delta_scan/delta_multi_file_reader.cpp.
-- - Pushdown: filter pushdown of src/functions/delta_scan/delta_multi_file_list.cpp, and its modes, from
--   src/functions/delta_scan/delta_scan.cpp. Pushdown/Report has their report, Pushdown/Handler the whole
--   methods, Pushdown/Requests several pushdowns in a row, Pushdown/Handled the same with their reports;
--   Pushdown/Skipping joins them to Predicate and FileList.
-- - Builder: `CreateBuilder` of src/functions/delta_scan/delta_multi_file_list.cpp. Builder/Url
--   has the schemes, Builder/Connection the connection strings, Builder/S3 and Builder/Azure the
--   options, Builder/Create the whole.
-- - Reader: `DeltaMultiFileReader` of src/functions/delta_scan/delta_multi_file_reader.cpp. Reader/Host has
--   what it takes from DuckDB, Reader/Options `ParseOption` and `BindOptions`, Reader/Columns
--   `InitializeReader`, Reader/Constants `FinalizeBind`; the other files have the proofs, of which
--   Reader/Rows joins the deletion filter, and Reader/Transform the partition values, to FileList.
-- - Functions: `delta_scan` and the lists of functions, from src/functions/delta_scan/delta_scan.cpp,
--   src/delta_functions.cpp and src/functions/expression_functions.cpp.
-- - Extension: `LoadInternal` (src/delta_extension.cpp) and the macros (src/delta_macros.cpp).
-- - Storage: src/storage: the catalog, its schema's lookup, and the transactions with their manager.
--   Storage/Attach has `DeltaCatalogAttach` (src/delta_extension.cpp) and the scan of an entry,
--   Storage/Version the catalog's version, Storage/Refused the statements that are refused,
--   Storage/Size the catalog's smaller methods.
-- - Logging: `LoggerCallback` (src/delta_utils.cpp) and `DeltaKernelLogType` (src/delta_log_types.cpp).
--   Logging/Shared has the one callback of a process; which events DuckDB's log takes is a parameter.
-- - Handles: the kernel's pointers, from src/include/delta_utils.hpp; Handles has the programs of their
--   methods and the steps of the threads that run them.
-- - Fixtures: a kernel and a library for the tests.
--
-- How the code is read. A method that changes state is a function from state to state, and what was
-- written before an exception stays written. Strings are lists of bytes, machine integers are numbers
-- with their wrap-around written out. Methods that hold the mutex are one step each. The kernel's
-- functions, the file system and the parts of DuckDB that are called are parameters: records of
-- functions, whose answers a theorem leaves open or states as hypotheses. What an uninitialised
-- variable holds is a parameter too, and what a negation that overflows gives. Undefined
-- behaviour is `none`, and so is the front of an empty vector; where `none` is a
-- null pointer or the end, it is an error `undefined`.
--
-- Bounds. Identifiers of lists are 64 bits wide, so a theorem on a traversal asks that the number of
-- lists that it allocates fits. The loop of `GetAllFiles` is run on fuel; one round for each file and
-- one more is enough.
--
-- Not modelled. The generated interface of the kernel beyond the documented order of its calls; the
-- extension's entry points, which only call `LoadInternal`; functions that nothing calls. The kernel's
-- handles are numbers in all parts but Handles. Printed numbers at the end of some messages are left out.
pub mod Prelude
pub mod Paths
pub mod Errors
pub mod Types
pub mod Values
pub mod Inflight
pub mod Schema
pub mod Expression
pub mod Filters
pub mod Columns
pub mod FileList
pub mod Fixtures
pub mod Reader
pub mod Logging
pub mod Handles
pub mod Predicate
pub mod DeleteFilter
pub mod Functions
pub mod Extension
pub mod Pushdown
pub mod Builder
pub mod Storage
