-- ===== src/Scheduling/Overrides.antt =====
-- `applyOverrides` of services/scheduling/internal/rotation/rotation.go.
pub mod Cover
pub mod Agree
pub mod Repeats
use sreon_call.Prelude.{List, [], ◌∷◌, ◌++◌, not, ◌&&◌, ltb, if◌then◌else◌, true, false, ℕ}
use sreon_call.Scheduling.Rotation.{Override, Shift}

-- The window of an override cut to [from, to).
unfoldable pub clamp_start : ℕ → Override → ℕ
clamp_start from o = if ltb o.start_at from then from else o.start_at

unfoldable pub clamp_end : ℕ → Override → ℕ
clamp_end to o = if ltb to o.end_at then to else o.end_at

-- The part of a base shift before an override, if there is one.
unfoldable pub before_override : Shift → ℕ → ℕ → List Shift
before_override s cur o_start =
    if ltb cur o_start
    then record { user_id = s.user_id; start_at = cur; end_at = o_start; is_override = false } ∷ []
    else []

-- The body of the loop over the overrides: what it appends, and the new `cur`.
unfoldable pub cut_one : ℕ → ℕ → Shift → Override → ℕ → List Shift × ℕ
unfolding clamp_start clamp_end before_override
cut_one from to s o cur =
    let o_start = clamp_start from o in
    let o_end = clamp_end to o in
    if not (ltb o_start o_end)
    then ([], cur)
    else if ltb o_start s.end_at && ltb s.start_at o_end
    then (
      before_override s cur o_start
          ++ (record { user_id = o.user_id; start_at = o_start; end_at = o_end; is_override = true }
              ∷ []),
      o_end,
    )
    else ([], cur)

-- The loop over the overrides for one base shift, and what remains of it.
unfoldable pub cut_shift : ℕ → ℕ → Shift → List Override → ℕ → List Shift
cut_shift from to s [] cur =
    if ltb cur s.end_at
    then record { user_id = s.user_id; start_at = cur; end_at = s.end_at; is_override = false } ∷ []
    else []
cut_shift from to s (o ∷ os) cur =
    let (out, next) = cut_one from to s o cur in out ++ cut_shift from to s os next

-- The loop over the base shifts.
unfoldable pub cut_all : List Shift → List Override → ℕ → ℕ → List Shift
cut_all [] overrides from to = []
cut_all (s ∷ base) overrides from to =
    cut_shift from to s overrides s.start_at ++ cut_all base overrides from to

unfoldable pub apply_overrides : List Shift → List Override → ℕ → ℕ → List Shift
apply_overrides base [] from to = base
apply_overrides base (o ∷ os) from to = cut_all base (o ∷ os) from to
