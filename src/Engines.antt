-- ===== src/Engines.antt =====
-- The adapters of the engines (engines/).
pub mod Output
pub mod Metrics
pub mod Frame
pub mod Df
pub mod Duckdb
pub mod Spark
pub mod Agreement
