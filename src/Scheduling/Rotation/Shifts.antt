-- ===== src/Scheduling/Rotation/Shifts.antt =====
-- The base shifts of `GenerateShifts` (services/scheduling/internal/rotation/rotation.go): the loop
-- ends, and its shifts say at each instant what the rotation says.
use sreon_call.Prelude.{
  ℕ, zero, suc, ◌+◌, ◌-◌, ◌≤◌, ◌<◌, ◌≡◌, String, List, [], ◌∷◌, false, arith, length, ok,
  bind-eq-ok, ok_injective, sym, All, Any, inl, inr, ltb, ltb→lt, true, if◌then◌else◌, Bool-cases,
}
use sreon_call.Scheduling.Duration.{max_duration}
use sreon_call.Scheduling.Rotation.{Shift, shift_at, base_shift, base_shifts}
use sreon_call.Scheduling.Rotation.OnCall.{
  round_bounds, shift_at_parts, shift_at_stable, shift_at_total, shift_at_window,
}

-- The shift holds the instant.
abbrev pub Covers : ℕ → Shift → Type 0
Covers t s = (s.start_at ≤ t) × (t < s.end_at)

-- The shift's user is the one that the rotation gives at the instant.
abbrev pub Agrees : List String → ℕ → ℕ → ℕ → Shift → Type 0
Agrees rotation epoch d t s =
    (r : String × ℕ × ℕ) × (shift_at rotation epoch d t ≡ ok r) × (s.user_id ≡ r.0)

-- The shift of a round is the rotation's answer at `cur`, cut at `to`.
base_shift_parts :
    (rotation : List String) (epoch d to cur : ℕ) (s : Shift)
    → base_shift rotation epoch d to cur ≡ ok s
    → (r : String × ℕ × ℕ) × (shift_at rotation epoch d cur ≡ ok r)
      × (s.user_id ≡ r.0)
      × (s.start_at ≡ r.1)
      × (s.end_at ≡ (if ltb to r.2 then to else r.2))
unfolding base_shift
base_shift_parts rotation epoch d to cur s h =
    let (r, e, q) = bind-eq-ok (shift_at rotation epoch d cur) _ h in
    (r, e, ground arith, ground arith, ground arith)

base_shift_not_override :
    (rotation : List String) (epoch d to cur : ℕ) (s : Shift)
    → base_shift rotation epoch d to cur ≡ ok s
    → s.is_override ≡ false
unfolding base_shift
base_shift_not_override rotation epoch d to cur s h =
    let (r, e, q) = bind-eq-ok (shift_at rotation epoch d cur) _ h in ground arith

base_shift_total :
    (rotation : List String) (epoch d to cur : ℕ)
    → 0 < length rotation
    → (s : Shift) × (base_shift rotation epoch d to cur ≡ ok s)
unfolding base_shift
base_shift_total rotation epoch d to cur h =
    let (r, e) = shift_at_total rotation epoch d cur h in
    (
      record {
        user_id = r.0;
        start_at = r.1;
        end_at = if ltb to r.2 then to else r.2;
        is_override = false;
      },
      rw e,
    )

-- A round moves `cur`.
base_shift_moves :
    (rotation : List String) (epoch d to cur : ℕ) (s : Shift)
    → 0 < d
    → cur < to
    → to ≤ epoch + max_duration
    → base_shift rotation epoch d to cur ≡ ok s
    → (cur < s.end_at) × (s.end_at ≤ to)
base_shift_moves rotation epoch d to cur s pos lt near h =
    let (r, e, _, _, end) = base_shift_parts rotation epoch d to cur s h in
    let (_, start, last) = shift_at_parts rotation epoch d cur r (omega arith) e in
    ground (arith, round_bounds (cur - epoch) d pos)

-- The loop ends: fuel for one round more than the window has nanoseconds is enough.
pub base_shifts_total :
    (fuel : ℕ) (rotation : List String) (epoch d to cur : ℕ)
    → 0 < length rotation
    → 0 < d
    → to ≤ epoch + max_duration
    → to - cur < fuel
    → (l : List Shift) × (base_shifts fuel rotation epoch d to cur ≡ ok l)
unfolding base_shifts
base_shifts_total zero rotation epoch d to cur some_member pos near h = elim h [ ]
base_shifts_total (suc fuel) rotation epoch d to cur some_member pos near h =
    elim (Bool-cases (ltb cur to)) [
      | inr over ↦ ([], rw over)
      | inl before ↦
          let (s, e) = base_shift_total rotation epoch d to cur some_member in
          let moved =
            base_shift_moves rotation epoch d to cur s pos (ltb→lt cur to before) near e in
          let (l, q) =
            base_shifts_total fuel rotation epoch d to s.end_at some_member pos near
              (omega (arith, moved.0)) in
          (s ∷ l, rw before (rw e (rw q)))
    ]

-- What one round of a loop that returns has appended, and what the rounds after it have.
base_shifts_step :
    (fuel : ℕ) (rotation : List String) (epoch d to cur : ℕ) (l : List Shift)
    → cur < to
    → base_shifts (suc fuel) rotation epoch d to cur ≡ ok l
    → (s : Shift) × (rest : List Shift) × (base_shift rotation epoch d to cur ≡ ok s)
      × (base_shifts fuel rotation epoch d to s.end_at ≡ ok rest)
      × (l ≡ s ∷ rest)
unfolding base_shifts
base_shifts_step fuel rotation epoch d to cur l lt h =
    let before : ltb cur to ≡ true = ground arith in
    let (s, e, k) = bind-eq-ok (base_shift rotation epoch d to cur) _ (rw before at h) in
    let (rest, q, last) = bind-eq-ok (base_shifts fuel rotation epoch d to s.end_at) _ k in
    (s, rest, e, q, sym (ok_injective last))

-- The shift of a round holds every instant from `cur` to its end, and agrees with the rotation there.
base_shift-Agrees :
    (rotation : List String) (epoch d to cur t : ℕ) (s : Shift)
    → 0 < d
    → epoch ≤ cur
    → cur < to
    → to ≤ epoch + max_duration
    → base_shift rotation epoch d to cur ≡ ok s
    → (s.start_at ≤ cur) × (Covers t s → Agrees rotation epoch d t s)
base_shift-Agrees rotation epoch d to cur t s pos after lt near h =
    let (r, e, user, start, end) = base_shift_parts rotation epoch d to cur s h in
    let window = shift_at_window rotation epoch d cur r pos after (omega arith) e in
    (
      omega arith,
      λ c. (
        r,
        shift_at_stable rotation epoch d cur t r pos after (omega arith) (ground arith) e
            (omega arith) (ground arith),
        user,
      ),
    )

base_shifts_over :
    (fuel : ℕ) (rotation : List String) (epoch d to cur : ℕ) (l : List Shift)
    → ltb cur to ≡ false
    → base_shifts (suc fuel) rotation epoch d to cur ≡ ok l
    → l ≡ []
unfolding base_shifts
base_shifts_over fuel rotation epoch d to cur l over h = sym (ok_injective (rw over at h))

-- What is claimed of the shifts from `cur` on, at an instant.
abbrev pub Agree : List String → ℕ → ℕ → ℕ → ℕ → ℕ → List Shift → Type 0
Agree rotation epoch d to cur t l =
    All (λ s. Covers t s → Agrees rotation epoch d t s) l
    × (cur ≤ t → t < to → Any (λ s. Covers t s × Agrees rotation epoch d t s) l)

-- Every instant of the window is in one of the shifts, and each shift agrees with the rotation at
-- every instant that it holds.
pub base_shifts-Agree :
    (fuel : ℕ) (rotation : List String) (epoch d to cur t : ℕ) (l : List Shift)
    → 0 < d
    → epoch ≤ cur
    → to ≤ epoch + max_duration
    → base_shifts fuel rotation epoch d to cur ≡ ok l
    → Agree rotation epoch d to cur t l
base_shifts-Agree zero rotation epoch d to cur t l pos after near h = unfold base_shifts in cc h
base_shifts-Agree (suc fuel) rotation epoch d to cur t l pos after near h =
    elim (Bool-cases (ltb cur to)) [
      | inr over ↦
          rw (base_shifts_over fuel rotation epoch d to cur l over h)
            (tt, λ lo hi. absurd (ground arith))
      | inl before ↦
          let lt = ltb→lt cur to before in
          let (s, rest, e, q, parts) = base_shifts_step fuel rotation epoch d to cur l lt h in
          let moved = base_shift_moves rotation epoch d to cur s pos lt near e in
          let (starts, agrees) =
            base_shift-Agrees rotation epoch d to cur t s pos after lt near e in
          let (later, covered) =
            base_shifts-Agree fuel rotation epoch d to s.end_at t rest pos (omega arith) near q in
          rw parts (
            (agrees, later),
            λ lo hi. elim (Bool-cases (ltb t s.end_at)) [
              | inl here ↦
                  let c : Covers t s = (omega arith, ltb→lt t s.end_at here) in inl (c, agrees c)
              | inr there ↦ inr (covered (ground arith) hi)
            ],
          )
    ]

-- No shift of the loop is marked as an override.
pub base_shifts_not_override :
    (fuel : ℕ) (rotation : List String) (epoch d to cur : ℕ) (l : List Shift)
    → base_shifts fuel rotation epoch d to cur ≡ ok l
    → All (λ s. s.is_override ≡ false) l
base_shifts_not_override zero rotation epoch d to cur l h = unfold base_shifts in cc h
base_shifts_not_override (suc fuel) rotation epoch d to cur l h = elim (Bool-cases (ltb cur to)) [
  | inr over ↦ rw (base_shifts_over fuel rotation epoch d to cur l over h) tt
  | inl before ↦
      let (s, rest, e, q, parts) =
        base_shifts_step fuel rotation epoch d to cur l (ltb→lt cur to before) h in
      rw parts (
        base_shift_not_override rotation epoch d to cur s e,
        base_shifts_not_override fuel rotation epoch d to s.end_at rest q,
      )
]
