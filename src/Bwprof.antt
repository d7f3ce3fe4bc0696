-- ===== src/Bwprof.antt =====
-- tools/bwprof/bwprof.cc: the memory bandwidth profiler.
pub mod Result
pub mod Config
pub mod Double
pub mod Stats
pub mod Split
pub mod Output
pub mod Report
pub mod Pcm
pub mod Events
pub mod Process
pub mod Dump
pub mod Clock
pub mod Screen
pub mod Monitor
pub mod Profiler
mod Sample
mod Tests
pub mod Options
pub mod Files
pub mod Directory
pub mod Info
