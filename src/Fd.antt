-- ===== src/Fd.antt =====
-- The descriptors and pipes of src/fd.rs.
pub mod Error
pub mod Pipe
pub mod PipeTable
pub mod Table
pub mod Io
pub mod Examples
