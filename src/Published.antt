-- ===== src/Published.antt =====
-- The published pages of reports/build_published.py and reports/build_graph_gpu_report.py: what they read
-- out of the line files, and the tables of the pages. The text around the tables is left out.
pub mod Medians
pub mod Format
pub mod Tables
pub mod Writes
pub mod Graph
