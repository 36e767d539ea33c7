-- ===== src/Workloads/Graph.antt =====
-- workloads/graph_gpu_vs_cpu.py: what it reads of the environment, its scripts and its steps.
pub mod Algos
pub mod Scripts
pub mod Steps
