-- ===== src/Scheduling/Generate.antt =====
-- `GenerateShifts` of services/scheduling/internal/rotation/rotation.go: the base shifts of a window
-- with the overrides applied.
pub mod Agree
use sreon_call.Prelude.{ℕ, suc, ◌-◌, List, ◌==◌, if◌then◌else◌, length, Result, ok, err, ◌>>=◌}
use sreon_call.Scheduling.Rotation.{
  TimeLib, Schedule, Override, Shift, RotationError, empty_rotation, epoch, shift_duration_of,
  base_shifts,
}
use sreon_call.Scheduling.Overrides.{apply_overrides}

-- A round of the loop moves `cur` by a nanosecond at least, so this fuel is enough wherever the loop
-- ends.
unfoldable pub generate_shifts :
    TimeLib → Schedule → List Override → ℕ → ℕ → Result RotationError (List Shift)
generate_shifts lib s overrides from to = if length s.rotation == 0 then err empty_rotation else do
  d ← shift_duration_of s
  base ← base_shifts (suc (to - from)) s.rotation (epoch lib s) d to from
  ok (apply_overrides base overrides from to)
