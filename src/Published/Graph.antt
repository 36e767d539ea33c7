-- ===== src/Published/Graph.antt =====
-- The report of reports/build_graph_gpu_report.py: the ids of the steps, the records, and the tables.
pub mod StepId
pub mod Schedule
pub mod Records
pub mod Sections
pub mod Crossover
