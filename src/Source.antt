-- ===== src/Source.antt =====
-- internal/source/rds
pub mod Hour
pub mod Marker
pub mod FileMeta
pub mod Lines
pub mod Truncation
pub mod Portion
pub mod Events
pub mod Discovery
pub mod Instances
pub mod SkipToEnd
pub mod Ranges
