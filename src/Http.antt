-- ===== src/Http.antt =====
-- What a caller is answered over HTTP: `archive/error_handlers.py`, `contracts/errors.py` and the reading of
-- the caller in `security/caller_context.py`, with the trace identifier of `middleware/correlation.py`.
pub mod Errors
pub mod Caller
pub mod Trace
pub mod Responses
pub mod Callers
mod Tests
