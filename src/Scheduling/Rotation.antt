-- ===== src/Scheduling/Rotation.antt =====
-- `OnCallAt`, `fromRotation` and `GenerateShifts` of
-- services/scheduling/internal/rotation/rotation.go, with the records of
-- services/scheduling/internal/domain/schedule.go that they read. An instant is the number of
-- nanoseconds from a fixed origin before every instant of the program; `UTC()` and `In(loc)` keep it.
pub mod OnCall
pub mod Shifts
pub mod Endless
use sreon_call.Prelude.{
  ℕ, zero, suc, ◌+◌, ◌-◌, ◌*◌, ◌/◌, ◌%◌, String, List, [], ◌∷◌, Bool, false, Option, none, some,
  not, ltb, leb, ◌==◌, ◌&&◌, if◌then◌else◌, get_elem?, length, Result, ok, err, ◌>>=◌,
}
use sreon_call.Scheduling.Duration.{DurationError, max_duration, parse_iso8601_duration}

pub record Schedule : Type 0 where
  pub id : String
  pub tenant_id : String
  pub name : String
  pub timezone : String
  pub rotation : List String
  pub shift_duration : List ℕ
  pub start_date : ℕ
  pub created_at : ℕ
  pub updated_at : ℕ

pub record Override : Type 0 where
  pub id : String
  pub schedule_id : String
  pub tenant_id : String
  pub user_id : String
  pub start_at : ℕ
  pub end_at : ℕ
  pub created_at : ℕ

pub record Shift : Type 0 where
  pub user_id : String
  pub start_at : ℕ
  pub end_at : ℕ
  pub is_override : Bool

-- `no_member` stands for the panic of an index out of range, and `stuck` for fuel that ran out.
pub data RotationError : Type 0 where
  empty_rotation no_member stuck : RotationError
  parse_shift_duration : DurationError → RotationError

-- What the code takes from the packages `time` and `strings`: `strings.TrimSpace`,
-- `time.LoadLocation`, and `time.Date(t.Year(), t.Month(), t.Day(), 0, 0, 0, 0, loc)`.
pub record TimeLib : Type 1 where
  pub Location : Type 0
  pub utc : Location
  pub trim_space : String → String
  pub load_location : String → Option Location
  pub start_of_day : ℕ → Location → ℕ

module _ (lib : TimeLib) where
  open lib use {Location, utc, trim_space, load_location, start_of_day}

  unfoldable pub location : Schedule → Location
  location s = elim (load_location (trim_space s.timezone)) [ none ↦ utc | some loc ↦ loc ]

  -- The start of the rotation: midnight of the start date in the schedule's timezone.
  unfoldable pub epoch : Schedule → ℕ
  epoch s = start_of_day s.start_date (location s)

-- `at.Sub(epoch)`, which stops at the largest duration, and then `if elapsed < 0 { elapsed = 0 }`.
unfoldable pub elapsed_since : ℕ → ℕ → ℕ
elapsed_since epoch at = if leb (at - epoch) max_duration then at - epoch else max_duration

unfoldable pub shift_duration_of : Schedule → Result RotationError ℕ
shift_duration_of s = elim (parse_iso8601_duration s.shift_duration) [
  | ok d ↦ ok d
  | err e ↦ err (parse_shift_duration e)
]

-- `s.Rotation[int(elapsed/shiftDur) % len(s.Rotation)]`.
unfoldable pub member_of : List String → ℕ → Result RotationError String
member_of rotation n = elim (get_elem? rotation (n % length rotation)) [
  | none ↦ err no_member
  | some u ↦ ok u
]

-- The shift that the rotation gives at an instant: the user, the start and the end.
unfoldable pub shift_at : List String → ℕ → ℕ → ℕ → Result RotationError (String × ℕ × ℕ)
shift_at rotation epoch d at =
    let n = elapsed_since epoch at / d in
    let start = epoch + n * d in do user ← member_of rotation n; ok (user, start, start + d)

module _ (lib : TimeLib) where
  unfoldable pub from_rotation : Schedule → ℕ → Result RotationError (String × ℕ × ℕ)
  from_rotation s at =
      if length s.rotation == 0
      then err empty_rotation
      else do d ← shift_duration_of s; shift_at s.rotation (epoch lib s) d at

  unfoldable pub on_call_at : Schedule → List Override → ℕ → Result RotationError (String × ℕ × ℕ)
  on_call_at s [] at = from_rotation s at
  on_call_at s (o ∷ os) at =
      let rest = on_call_at s os at in
      if not (ltb at o.start_at) && ltb at o.end_at
      then ok (o.user_id, o.start_at, o.end_at)
      else rest

-- One round of the loop of `GenerateShifts`: the shift at `cur`, its end cut to `to`.
unfoldable pub base_shift : List String → ℕ → ℕ → ℕ → ℕ → Result RotationError Shift
base_shift rotation epoch d to cur = do
  r ← shift_at rotation epoch d cur
  ok (record {
    user_id = r.0;
    start_at = r.1;
    end_at = if ltb to r.2 then to else r.2;
    is_override = false;
  })

-- The loop `for cur.Before(to)`.
unfoldable pub base_shifts : ℕ → List String → ℕ → ℕ → ℕ → ℕ → Result RotationError (List Shift)
base_shifts zero rotation epoch d to cur = err stuck
base_shifts (suc fuel) rotation epoch d to cur =
    let more = base_shift rotation epoch d to cur >>= λ s.
    base_shifts fuel rotation epoch d to s.end_at >>= λ rest. ok (s ∷ rest) in
    if ltb cur to then more else ok []
