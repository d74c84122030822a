-- ===== src/Decisions.antt =====
-- Signed decisions on the lifecycle of the evidence of an idea: `archive/idea_lifecycle_decisions/`.
pub mod Model
pub mod Signing
pub mod Ledger
pub mod Desk
pub mod Verification
pub mod Acceptance
pub mod Issue
pub mod Truth
mod Sample
mod Tests
