-- ===== src/Time.antt =====
-- `time.Time` and `time.Duration`. An instant is the number of nanoseconds since two days before
-- 0000-01-01T00:00:00Z, so that every instant `time.Parse` can return is a natural number.
pub mod Parse
pub mod Format
