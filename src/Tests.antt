-- ===== src/Tests.antt =====
-- Concrete bytes, files and systems, and the theorems of the other files applied to them.
pub mod Paths
pub mod Between
pub mod Programs
pub mod Views
pub mod Spans
pub mod Benchmark
pub mod Memory
pub mod Data
pub mod Faults
pub mod Losses
pub mod Frames
pub mod Readers
pub mod MappedReader
pub mod Runs
pub mod Mapping
