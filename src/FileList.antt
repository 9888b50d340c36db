-- ===== src/FileList.antt =====
-- `DeltaMultiFileList` and `ScanDataCallBack` (delta_multi_file_list.hpp, delta_multi_file_list.cpp):
-- the lazily expanded list of the data files of a snapshot.
pub mod State
pub mod Callback
pub mod Init
pub mod Expand
pub mod Frame
pub mod Listing
pub mod Opened
pub mod Started
pub mod Described
pub mod Seen
pub mod Attributed
pub mod All
pub mod Cardinality
pub mod Numbers
pub mod Numbered
pub mod Failed
pub mod Retry
mod Tests
