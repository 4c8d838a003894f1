-- ===== src/Io.antt =====
-- src/io: ring buffers and the buffered reader and writer over them.
pub mod Mirror
pub mod Traits
pub mod Calls
pub mod Queue
pub mod Ring
pub mod InfiniteRing
pub mod Reader
pub mod Writer
mod Tests
