-- ===== src/Filenames.antt =====
-- reporting_platform/common/filenames.py, with `Feed.parse_filename` of
-- reporting_platform/common/context.py, which it inverts.
pub mod Patterns
pub mod Render
pub mod Claims
pub mod Advance
pub mod LiteralFuel
pub mod Fuel
pub mod Literals
pub mod Stems
