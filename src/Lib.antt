-- ===== src/Lib.antt =====
-- lotus-archive: custody of generated documents, with legal holds, lifecycle links, purges and an audit
-- trail (src/app/archive/).
--
-- The archive service (Service, for src/app/archive/service.py) answers requests. It authorizes the caller
-- (Authorization, for authorization.py), reads and writes the repository (Repository, for repository.py), keeps
-- the bytes in an object storage and records each access (Audit, for audit.py). The metadata stands in
-- Models and Composite (models.py and composite_*.py), with the validators of a submitted document in
-- Models/Validation. The preconditions of a lifecycle transition are in Lifecycle
-- (lifecycle_transitions.py), the batch preflight in Preflight (access_preflight.py).
-- Service/Writer is archive_writer.py and the admission part of artifact_format.py; Service/Purge has
-- purge_transitions.py; Checksum is checksum.py.
--
-- Storage is the file storage of storage.py over the calls of pathlib, one implementation of the protocol that the
-- service is given; Storage/Laws says what a file system is relied on for. Decisions is
-- idea_lifecycle_decisions/: the service that signs decisions about an archived document (Decisions/Desk, for service.py,
-- over Decisions/Ledger, for repository.py), and the check that a consumer makes (Decisions/Signing, for signing.py).
-- Events (source_events.py) projects a document to the events that Service/Feed answers. Http has the response to
-- each exception (error_handlers.py, src/app/contracts/errors.py) and the reading of the caller from the headers
-- (src/app/security/caller_context.py) and of the trace identifier (src/app/middleware/correlation.py).
-- Http/Responses compares the responses to the table of error codes in wiki/API-Surface.md.
--
-- The state of the service is Service.World: the repository's four dicts, the stored objects, the recorded
-- events, and how many readings of the clock and of uuid4 were taken. A method is an action in Exec:
-- it answers or raises, and what it wrote before a raise stays written. A method of the repository is one
-- atomic step. Environment holds what is not of this repository or not modelled: the storage behind its
-- protocol, SHA-256, base64, the XLSX reader, case folding, identifiers and the clock. JSON and Ed25519 are fields
-- of Decisions.Signing.Codec; a decision's fields without its digest and signature are its payload.
--
-- Following superseding documents runs on fuel, one round more than there are stored documents: each round
-- visits another one.
--
-- Not modelled: the HTTP routes and models, the PostgreSQL and S3 adapters, settings, metrics, and the
-- validators of summaries, pins and selections.
pub mod Prelude
pub mod Calendar
pub mod Composite
pub mod Models
pub mod Errors
pub mod Lifecycle
pub mod Repository
pub mod Exec
pub mod Audit
pub mod Checksum
pub mod Storage
pub mod Environment
pub mod Authorization
pub mod Service
pub mod Preflight
pub mod Decisions
pub mod Events
pub mod Http
mod Samples
