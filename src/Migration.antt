-- ===== src/Migration.antt =====
-- reporting_platform/migration: comparing the legacy estate's output with the platform's.
pub mod Comparators
pub mod RowHashes
pub mod Technical
pub mod Worst
pub mod SameRows
pub mod Acceptance
pub mod Latest
pub mod Streak
pub mod Correlate
pub mod Pairing
