-- ===== src/Runner.antt =====
-- bench_runner.py.
pub mod Resolve
pub mod Run
pub mod Preflight
pub mod Select
pub mod Session
pub mod Merge
pub mod Menu
pub mod Data
