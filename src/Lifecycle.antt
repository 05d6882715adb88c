-- ===== src/Lifecycle.antt =====
-- reporting_platform/registry/lifecycle.py: what may still be published for an as-at date, and on
-- whose say-so; with `report`, `report_owner` and `restatement_policy` of
-- reporting_platform/common/context.py, which it asks about a report.
pub mod Registry
pub mod Transitions
pub mod Inputs
pub mod Gate
pub mod Authority
pub mod Movement
pub mod Publication
pub mod Audit
pub mod Relock
