-- ===== src/Service.antt =====
-- `ArchiveDocumentService` of `archive/service.py`, with `archive/archive_writer.py` and
-- `archive/purge_transitions.py`: each method is an action on the state `World`. The metrics decorator
-- is left out. Every method takes the environment first.
pub mod World
pub mod Walk
pub mod Trail
pub mod Posture
pub mod Scope
pub mod Sample
mod Tests
mod ResolutionTests
mod ArchivalTests
pub mod Blind
pub mod Destruction
pub mod Custody
pub mod Denial
pub mod Safety
pub mod Requests
pub mod Access
pub mod Purge
pub mod Holds
pub mod Lifecycle
pub mod Writer
pub mod Reads
pub mod Feed
pub mod Archival
pub mod Resolution
