-- ===== src/Incident/Tables/Rows.antt =====
-- The statements on the assignment table: reading a row after a write.
use emergency_callup.Prelude.{ℕ, List, [], ◌∷◌, ◌≡◌, arith, ◌==◌, if◌then◌else◌}
use mathlib.Core.Option
use emergency_callup.Incident.Model.{Assignment}
use emergency_callup.Incident.Tables.{assignment_of, update_assignment}

-- A change of columns that leaves the primary key alone.
abbrev pub KeepsKey : (Assignment → Assignment) → Type 0
KeepsKey change =
    (a : Assignment)
    → ((change a).incident_id ≡ a.incident_id) × ((change a).member_id ≡ a.member_id)

pub assignment_of-update_assignment :
    (i k m : ℕ) (change : Assignment → Assignment) (rows : List Assignment)
    → KeepsKey change
    → assignment_of i m (update_assignment i k change rows)
      ≡ (if k == m then Option.map change (assignment_of i m rows) else assignment_of i m rows)
unfolding assignment_of update_assignment
assignment_of-update_assignment i k m change [] keeps = ground arith
assignment_of-update_assignment i k m change (a ∷ rest) keeps =
    ground (arith, keeps a, assignment_of-update_assignment i k m change rest keeps)
