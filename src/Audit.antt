-- ===== src/Audit.antt =====
-- internal/audit: the append-only event table. The JSON payload of an event is not modelled.
use emergency_callup.Prelude.{ℕ, Bool, List, [], ◌∷◌, ◌++◌, Option, String, if◌then◌else◌}
use emergency_callup.Prelude.Int.{ℤ}

-- The prefix and the id or login that `ActorAdmin` and `ActorMember` put together.
pub data Actor : Type 0 where
  system : Actor
  admin : String → Actor
  member : ℕ → Actor

pub record AuditRow : Type 0 where
  pub ts : ℤ
  pub incident_id : Option ℕ
  pub actor : Actor
  pub kind : String
  pub member_id : Option ℕ

-- `Log.Record`: its callers ignore the error, so a failed insert leaves the table as it was.
unfoldable pub record_event : Bool → List AuditRow → AuditRow → List AuditRow
record_event fails events e = if fails then events else events ++ e ∷ []
