-- ===== src/Builder.antt =====
-- The engine builder (functions/delta_scan/delta_multi_file_list.cpp): where an URL points, the secret
-- for it, and the options that the kernel's engine is built with.
pub mod Url
pub mod Connection
pub mod Options
pub mod S3
pub mod Azure
pub mod Create
pub mod Locations
pub mod Values
pub mod Settings
pub mod Endpoint
pub mod Container
mod Tests
