-- ===== src/Reader.antt =====
-- The reader of a Delta table's files: `DeltaMultiFileReader`
-- (functions/delta_scan/delta_multi_file_reader.cpp and its header).
pub mod Host
pub mod Constants
pub mod Bound
pub mod Files
pub mod Options
pub mod Columns
pub mod Global
pub mod Binding
pub mod Partitions
pub mod Rows
pub mod Transform
mod Tests
mod RowsTests
pub mod Typed
