-- ===== src/Scheduling/Overrides/Cover.antt =====
-- Overrides laid over the base shifts (`applyOverrides` of
-- services/scheduling/internal/rotation/rotation.go) leave no gap.
use sreon_call.Prelude.{
  ℕ, ◌≤◌, ◌<◌, List, [], ◌∷◌, arith, Any, Any-append_left, Any-append_right, inl, inr, ◌⊎◌,
}
use sreon_call.Scheduling.Rotation.{Override, Shift}
use sreon_call.Scheduling.Rotation.Shifts.{Covers}
use sreon_call.Scheduling.Overrides.{cut_one, cut_shift, cut_all, apply_overrides}

-- One override: the pieces that it appends hold every instant up to the new `cur`.
cut_one-Covers :
    (from to : ℕ) (s : Shift) (o : Override) (cur t : ℕ)
    → cur ≤ t
    → Any (Covers t) (cut_one from to s o cur).0 ⊎ ((cut_one from to s o cur).1 ≤ t)
unfolding cut_one
cut_one-Covers from to s o cur t lo = ground arith

cut_shift-Covers :
    (from to : ℕ) (s : Shift) (os : List Override) (cur t : ℕ)
    → cur ≤ t
    → t < s.end_at
    → Any (Covers t) (cut_shift from to s os cur)
unfolding cut_shift
cut_shift-Covers from to s [] cur t lo hi = ground arith
cut_shift-Covers from to s (o ∷ os) cur t lo hi = elim (cut_one-Covers from to s o cur t lo) [
  | inl here ↦
      Any-append_left (Covers t) (cut_one from to s o cur).0
        (cut_shift from to s os (cut_one from to s o cur).1) here
  | inr later ↦
      Any-append_right (Covers t) (cut_one from to s o cur).0
        (cut_shift from to s os (cut_one from to s o cur).1)
        (cut_shift-Covers from to s os (cut_one from to s o cur).1 t later hi)
]

cut_all-Covers :
    (base : List Shift) (os : List Override) (from to t : ℕ)
    → Any (Covers t) base
    → Any (Covers t) (cut_all base os from to)
unfolding cut_all
cut_all-Covers [] os from to t h = absurd h
cut_all-Covers (s ∷ base) os from to t (inl h) =
    Any-append_left (Covers t) (cut_shift from to s os s.start_at) (cut_all base os from to)
      (cut_shift-Covers from to s os s.start_at t h.0 h.1)
cut_all-Covers (s ∷ base) os from to t (inr h) =
    Any-append_right (Covers t) (cut_shift from to s os s.start_at) (cut_all base os from to)
      (cut_all-Covers base os from to t h)

-- Every instant that a base shift holds is still in a shift after the overrides are applied, for
-- overrides in any order and overlapping in any way.
pub apply_overrides-Covers :
    (base : List Shift) (os : List Override) (from to t : ℕ)
    → Any (Covers t) base
    → Any (Covers t) (apply_overrides base os from to)
unfolding apply_overrides
apply_overrides-Covers base [] from to t h = h
apply_overrides-Covers base (o ∷ os) from to t h = cut_all-Covers base (o ∷ os) from to t h
