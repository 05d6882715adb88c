-- ===== src/Tests.antt =====
-- Concrete runs of the modelled code, and each theorem at an input that meets its hypotheses.
mod Calendar
mod Lifecycle
mod Migration
mod Retention
mod Completeness
mod Transport
mod Filenames
mod Landing
mod Lateness
mod Bucket
mod Client
mod Publication
mod Ready
mod Quarantine
mod Delivery
