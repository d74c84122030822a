-- ===== src/Composite.antt =====
-- The composite identities that Report pins and the archive keeps: `archive/composite_*.py`.
pub mod Pins
pub mod Selections
pub mod Identity
pub use Identity.{CompositeCustodyIdentity}
