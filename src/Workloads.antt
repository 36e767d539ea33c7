-- ===== src/Workloads.antt =====
-- The result digest and the registry of workloads/spec.py, and the graph workload.
pub mod Digest
pub mod Discover
pub mod Graph
