-- ===== src/Curve.antt =====
-- The scale-out curve (scale_out/aggregate.py): the stream directories of a run, the timings of a
-- stream, the rows of the curve and what is written of them.
pub mod Streams
pub mod Timings
pub mod Rows
pub mod Verdict
pub mod Main
