-- ===== src/Tests.antt =====
-- The theorems at concrete inputs, which meet their hypotheses.
mod Buffers
mod Frames
mod Connections
mod Sorting
mod Servers
mod Calls
