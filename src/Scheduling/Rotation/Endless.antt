-- ===== src/Scheduling/Rotation/Endless.antt =====
-- Where the loop of `GenerateShifts` (services/scheduling/internal/rotation/rotation.go) goes wrong:
-- windows past the span of a `time.Duration`, and windows before the rotation starts.
use native.Mathlib.Nat.{zero-div}
use sreon_call.Prelude.{
  ℕ, zero, suc, ◌+◌, ◌*◌, ◌/◌, ◌≤◌, ◌<◌, ◌≡◌, refl, String, List, [], ◌∷◌, false, true, arith, ok,
  err, ltb,
}
use sreon_call.Scheduling.Duration.{max_duration}
use sreon_call.Scheduling.Rotation.{
  stuck, elapsed_since, member_of, shift_at, base_shift, base_shifts,
}
use sreon_call.Scheduling.Rotation.OnCall.{round_bounds}

elapsed_far : (epoch at : ℕ) → epoch + max_duration ≤ at → elapsed_since epoch at ≡ max_duration
unfolding elapsed_since
elapsed_far epoch at h = ground arith

-- The end of the last shift that a `time.Duration` can reach.
abbrev pub last_end : ℕ → ℕ → ℕ
last_end epoch d = epoch + max_duration / d * d + d

base_shift_far :
    (rotation : List String) (epoch d to cur : ℕ) (u : String)
    → epoch + max_duration ≤ cur
    → last_end epoch d < to
    → member_of rotation (max_duration / d) ≡ ok u
    → base_shift rotation epoch d to cur
      ≡ ok (record {
        user_id = u;
        start_at = epoch + max_duration / d * d;
        end_at = last_end epoch d;
        is_override = false;
      })
unfolding base_shift shift_at
base_shift_far rotation epoch d to cur u far short m =
    let within : ltb to (last_end epoch d) ≡ false = ground arith in
    rw (elapsed_far epoch cur far) (rw m (rw within))

-- Past the span of a `time.Duration` the elapsed time saturates, each round gives the same shift, and
-- the loop never ends: no fuel is enough.
pub base_shifts_endless :
    (fuel : ℕ) (rotation : List String) (epoch d to cur : ℕ) (u : String)
    → 0 < d
    → epoch + max_duration ≤ cur
    → cur < to
    → last_end epoch d < to
    → member_of rotation (max_duration / d) ≡ ok u
    → base_shifts fuel rotation epoch d to cur ≡ err stuck
unfolding base_shifts
base_shifts_endless zero rotation epoch d to cur u pos far lt short m = refl
base_shifts_endless (suc fuel) rotation epoch d to cur u pos far lt short m =
    let before : ltb cur to ≡ true = ground arith in
    let last : epoch + max_duration ≤ last_end epoch d =
      omega (arith, round_bounds max_duration d pos) in
    rw before (
      rw (base_shift_far rotation epoch d to cur u far short m) (
        rw (
          base_shifts_endless fuel rotation epoch d to (last_end epoch d) u pos last short short
            m)))

elapsed_before : (epoch at : ℕ) → at ≤ epoch → elapsed_since epoch at ≡ 0
unfolding elapsed_since
elapsed_before epoch at h = ground arith

zero_rounds : (epoch d : ℕ) → epoch + 0 / d * d ≡ epoch
zero_rounds epoch d = rw (zero-div d) (omega arith)

base_shift_early :
    (rotation : List String) (epoch d to cur : ℕ) (u : String)
    → cur < to
    → to ≤ epoch
    → 0 < d
    → member_of rotation 0 ≡ ok u
    → base_shift rotation epoch d to cur
      ≡ ok (record { user_id = u; start_at = epoch; end_at = to; is_override = false })
unfolding base_shift shift_at
base_shift_early rotation epoch d to cur u lt early pos m =
    let first : 0 / d ≡ 0 = zero-div d in
    let cut : ltb to (epoch + d) ≡ true = ground arith in
    rw (elapsed_before epoch cur (omega arith))
      (rw (zero_rounds epoch d) (rw first (rw m (rw cut))))

-- A window that ends before the rotation starts gets one shift, from the epoch to the window's end:
-- it ends no later than it starts, and holds no instant.
pub base_shifts_inverted :
    (fuel : ℕ) (rotation : List String) (epoch d to cur : ℕ) (u : String)
    → cur < to
    → to ≤ epoch
    → 0 < d
    → member_of rotation 0 ≡ ok u
    → base_shifts (suc (suc fuel)) rotation epoch d to cur
      ≡ ok (record { user_id = u; start_at = epoch; end_at = to; is_override = false } ∷ [])
unfolding base_shifts
base_shifts_inverted fuel rotation epoch d to cur u lt early pos m =
    let before : ltb cur to ≡ true = ground arith in
    let over : ltb to to ≡ false = ground arith in
    rw before (rw (base_shift_early rotation epoch d to cur u lt early pos m) (rw over))
