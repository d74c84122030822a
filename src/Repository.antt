-- ===== src/Repository.antt =====
-- `InMemoryArchiveDocumentRepository` of `archive/repository.py`. A method takes the repository last
-- and returns it beside its result. `now` is what `datetime.now` answers in that call.
-- `check_ready`, `seed_document_state` and `save_legal_hold` (test seeding) are left out.
pub mod State
pub mod Purge
pub mod Holds
pub mod Transitions
pub mod Invariant
pub mod Preservation
pub mod Linking
pub mod History
pub mod Frames
pub mod Writes
mod Tests
