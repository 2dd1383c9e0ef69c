-- ===== src/Tracker/Judge/Reached.antt =====
-- internal/tracker/judge.go: the rows that the tracker can hold, and the moves from them.
use emergency_callup.Prelude.{ℕ, Bool, arith}
use emergency_callup.Prelude.Int.{ℤ, pos}
use emergency_callup.Floats.{Floats}
use emergency_callup.Area.Row.{Row}
use emergency_callup.Incident.Model.{Assignment}
use emergency_callup.Tracker.Judge.{Fix, Live, mark_logged_in, mark_loc_denied, apply_fix, new_live}
use emergency_callup.Tracker.Judge.Steps.{
  IsCounting, IsMove, mark_logged_in-IsCounting, mark_loc_denied-IsCounting, apply_fix-IsCounting,
  apply_fix_moves,
}

module _ (fl : Floats) where
  open fl use {F}

  -- A row loaded from the table, and what logins, denials of the position, fixes and the marks of the
  -- tracker (changed at, acknowledged, to be written) make of it.
  pub data Reached : Live F → Type 0 where
    loading : (a : Assignment) → Reached (new_live fl a)
    login : (l : Live F) (now : ℤ) → Reached l → Reached (mark_logged_in l now)
    denial : (l : Live F) → Reached l → Reached (mark_loc_denied l)
    report :
        (l : Live F) (f : Fix F) (ar : Row F) (now : ℤ)
        → Reached l
        → Reached (apply_fix fl l f ar now).live
    marking :
        (l : Live F) (seq : ℕ) (ack : ℤ) (dirty : Bool)
        → Reached l
        → Reached (record l { seq_at = seq; ack_ver = ack; dirty = dirty })

  new_live-IsCounting : (a : Assignment) → IsCounting (new_live fl a)
  unfolding new_live
  new_live-IsCounting a = ground arith

  Reached-IsCounting : (l : Live F) → Reached l → IsCounting l
  Reached-IsCounting _ (loading a) = new_live-IsCounting a
  Reached-IsCounting _ (login l now r) = mark_logged_in-IsCounting l now (Reached-IsCounting l r)
  Reached-IsCounting _ (denial l r) = mark_loc_denied-IsCounting l (pos 0) (Reached-IsCounting l r)
  Reached-IsCounting _ (report l f ar now r) =
      apply_fix-IsCounting fl l f ar now (Reached-IsCounting l r)
  Reached-IsCounting _ (marking l seq ack dirty r) =
      let c = Reached-IsCounting l r in record { arriving = c.arriving; leaving = c.leaving }

  -- One fix on a row that was loaded from the table and changed only by logins, denials of the position,
  -- fixes and marks makes at most one move of the state machine, and records that move's events.
  pub reached_moves :
      (l : Live F) (f : Fix F) (ar : Row F) (now : ℤ)
      → Reached l
      → IsMove l.state (apply_fix fl l f ar now).live.state (apply_fix fl l f ar now).events
  reached_moves l f ar now r = apply_fix_moves fl l f ar now (Reached-IsCounting l r)
