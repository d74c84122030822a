-- ===== src/Authorization.antt =====
-- `archive/authorization.py`: which caller may do what, and to whose documents.
pub mod Policy
pub mod Scope
