-- ===== src/Delivery.antt =====
-- reporting_platform/ingest: how a delivery is read from an accepted transport.
pub mod Control
pub mod Values
pub mod Identity
pub mod Resolve
pub mod Agreement
pub mod Resolved
pub mod Feeds
pub mod Readings
pub mod Complete
