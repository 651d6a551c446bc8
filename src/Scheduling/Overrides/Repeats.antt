-- ===== src/Scheduling/Overrides/Repeats.antt =====
-- How often `applyOverrides` (services/scheduling/internal/rotation/rotation.go) lists an override.
use sreon_call.Prelude.{
  ℕ, ◌+◌, ◌≡◌, refl, List, [], ◌∷◌, ◌++◌, Bool, ◌&&◌, arith, ltb, if◌then◌else◌,
}
use sreon_call.Scheduling.Rotation.{Override, Shift}
use sreon_call.Scheduling.Overrides.{
  clamp_start, clamp_end, cut_one, cut_shift, cut_all, apply_overrides,
}

-- The shifts that are overrides.
abbrev pub override_count : List Shift → ℕ
override_count [] = 0
override_count (x ∷ l) = (if x.is_override then 1 else 0) + override_count l

-- The override's window, cut to [from, to), is not empty and overlaps the base shift.
abbrev pub overlaps : ℕ → ℕ → Override → Shift → Bool
unfolding clamp_start clamp_end
overlaps from to o s =
    ltb (clamp_start from o) (clamp_end to o)
    && (ltb (clamp_start from o) s.end_at && ltb s.start_at (clamp_end to o))

abbrev pub overlap_count : ℕ → ℕ → Override → List Shift → ℕ
overlap_count from to o [] = 0
overlap_count from to o (s ∷ base) =
    (if overlaps from to o s then 1 else 0) + overlap_count from to o base

override_count-append :
    (xs ys : List Shift) → override_count (xs ++ ys) ≡ override_count xs + override_count ys
override_count-append [] ys = omega arith
override_count-append (x ∷ xs) ys = omega (arith, override_count-append xs ys)

cut_shift_count :
    (from to : ℕ) (o : Override) (s : Shift)
    → override_count (cut_shift from to s (o ∷ []) s.start_at)
      ≡ (if overlaps from to o s then 1 else 0)
unfolding cut_shift cut_one
cut_shift_count from to o s = ground arith

cut_all_count :
    (from to : ℕ) (o : Override) (base : List Shift)
    → override_count (cut_all base (o ∷ []) from to) ≡ overlap_count from to o base
unfolding cut_all
cut_all_count from to o [] = refl
cut_all_count from to o (s ∷ base) = omega (
  arith,
  override_count-append (cut_shift from to s (o ∷ []) s.start_at) (cut_all base (o ∷ []) from to),
  cut_shift_count from to o s,
  cut_all_count from to o base,
)

-- A single override is listed once for each base shift that its window overlaps, so an override that
-- spans two base shifts is listed twice.
pub apply_overrides_repeats :
    (base : List Shift) (o : Override) (from to : ℕ)
    → override_count (apply_overrides base (o ∷ []) from to) ≡ overlap_count from to o base
unfolding apply_overrides
apply_overrides_repeats base o from to = cut_all_count from to o base
