-- ===== src/Stats.antt =====
-- The order statistics of the reports. A timing is a whole number of microseconds, so that every
-- operation is exact; a statistic that interpolates is in hundredths of that unit, and `none` stands
-- for NaN.
pub mod Percentile
pub mod Laws
