-- ===== src/Examples.antt =====
-- Concrete runs of the development.
mod Queries
mod Runs
mod Reports
mod Curves
mod Engines
mod Pages
mod Graphs
mod Outputs
