-- ===== src/Http.antt =====
-- internal/httpapi: the handlers that act on several stores in one request. What they answer beyond the
-- code of an error, and the check of the session that stands before each of them, are left out.
use emergency_callup.Prelude.{String, Option}
pub mod Accounts
pub mod Close
pub mod Login
mod Tests

-- `writeError` with the code "invalid" or "server", or `writeJSON`.
pub data Outcome (A : Type 0) : Type 0 where
  invalid server_error : Outcome A
  replied : A → Outcome A
