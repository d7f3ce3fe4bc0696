-- ===== src/Hmalloc.antt =====
-- The library hmalloc, which allocates memory on chosen nodes.
pub mod Env
pub mod Power
pub mod Bag
pub mod Libc
pub mod Library
pub mod Mapping
pub mod Blocks
pub mod Client
pub mod Sample
mod Tests
