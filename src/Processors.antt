-- ===== src/Processors.antt =====
-- pkg/processors: the stream processors.
pub mod Loader
pub mod Batch
pub mod Config
pub mod Session
