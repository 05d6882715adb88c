-- ===== src/Retention.antt =====
-- reporting_platform/retention: the sweeps of Nessie's references, and the windows they go by.
pub mod Windows
pub mod Interlock
pub mod Bound
pub mod References
pub mod Sweeps
pub mod Swept
pub mod Abandoned
pub mod Fallback
pub mod LandingNames
pub mod Landing
pub mod LandingSwept
pub mod Metadata
pub mod Ready
pub mod ReadySwept
pub mod Quarantine
pub mod QuarantineSwept
