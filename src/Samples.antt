-- ===== src/Samples.antt =====
-- Concrete inputs, on which the theorems are applied.
mod Fixtures
mod Runs
mod Parts
mod Streams
mod Servers
mod Orchestrations
