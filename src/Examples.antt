-- ===== src/Examples.antt =====
-- The theorems applied at concrete inputs, and tests of the definitions.
mod Text
mod Building
mod Chunks
mod Serving
mod Measuring
mod Starting
mod Profiling
mod Sweeping
mod Fetching
