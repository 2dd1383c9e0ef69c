-- ===== src/Lib.antt =====
-- A model of the Go server that calls out emergency teams, follows them to their areas and shows the
-- control room where they are. An incident has teams; each team has a mission and an area, each member
-- of a team an assignment. Phones post positions ("fixes"); the tracker judges every fix against the
-- member's area and moves the member through NOTIFIED, LOGGED_IN, LOC_DENIED, MOVING, ARRIVED, LEFT.
--
-- The files, and the code that each is about:
--   Prelude: Boolean tests, lists, signed integers and maps with numeric keys, shared by all.
--   Floats: float64 and package math as a parameter (a type, its operations and tests, no laws).
--   Floats/Fixed: a concrete such parameter, for the tests.
--   Audit: internal/audit/audit.go.
--   Area/Geo, Area/Polygon: internal/area/geo.go. Area/Grid, Area/Grid/Cells: internal/area/grid.go.
--   Area/Row, Area/Store, Area/Store/Write: internal/area/store.go.
--   Incident/Model: internal/incident/model.go, the types of plan.go. Incident/Tables: the queries.
--   Incident/Store, Incident/Open, Incident/Teams: internal/incident/store.go.
--   Incident/Draft: internal/incident/draft.go. Incident/Plans: internal/incident/plan.go, and
--     DeleteOldFixes of store.go.
--   Roster/Normalize: internal/roster/normalize.go. Roster/Members: internal/roster/store.go.
--   Transit/Network, Transit/Search: internal/transit/network.go.
--   Tracker/Judge: internal/tracker/judge.go (IsValidFix, Live, ApplyFix, ApplyMissionChange).
--   Tracker/Interval: internal/tracker/interval.go. Tracker/Process: internal/tracker/tracker.go.
--   Auth/Limiter: internal/auth/ratelimit.go. Auth/Session: internal/auth/session.go.
--   Auth/Admin: internal/auth/admin.go and ValidatePasswordPolicy of password.go.
--   Http/Close: handleIncidentClose of internal/httpapi/admin_incident.go. Http/Accounts:
--     handleMemberUpdate and handleMemberPasswordReset of internal/httpapi/admin_setup.go.
--   Http/Login: handleAdminLogin of internal/httpapi/admin_auth.go. The Http files compose the operations
--     of the tracker, the incidents, the roster, the sessions and the limiter.
-- The modules below these hold the proofs and are named for what they prove; Tests modules run the
-- definitions and apply the theorems at concrete inputs.
--
-- Correspondence. A function keeps its Go name, in snake case. A struct is a record, a string enum a
-- data type, a table a list of rows, a Go map an association list or a function, nil an Option. A
-- method on shared state takes the state and returns the new one; the statements of the database
-- that may fail are Boolean arguments (Faults, StoreFaults, SessionFaults), and a failed one leaves
-- the tables as they were. A panic (a nil area, a polygon without points) is a reply of its own,
-- with the state as it was before. Where a store opens a transaction, one fault stands for any of
-- its statements. Every function of the model terminates by structural recursion, so there is no
-- fuel; the box of cells that a fill scans is bounded by maxScanCells, 200000.
--
-- Orders. A range over a map visits its entries in an unspecified order: the order is an argument of the
-- vote on a peacetime value and of the search for travel times. Rows that a query orders are sorted.
--
-- Numbers. Go's int and int64 are unbounded integers, or ℕ where the program keeps them from being
-- negative; the sequence number of the tracker wraps at 2^64, and
-- the seconds of the transit search at 32 bits. Times are nanoseconds or milliseconds, as
-- the code has them.
--
-- Not modelled. Two requests that interleave between the sections in which they hold a lock: a
-- request is one step. JSON, HTTP, SQL text, xlsx, SMS, geocoding, configuration, migrations and the
-- web client are I/O or libraries. Hashes, random tokens and the string functions of Go are
-- parameters. The imports, presets, test accounts and the other handlers are left out, and of the transit
-- network the isochrones and the store.
pub mod Prelude
pub mod Floats
pub mod Audit
pub mod Area
pub mod Auth
pub mod Http
pub mod Incident
pub mod Roster
pub mod Tracker
pub mod Transit
