-- ===== src/Scheduling/Generate/Agree.antt =====
-- `GenerateShifts` against `OnCallAt` (services/scheduling/internal/rotation/rotation.go).
use sreon_call.Prelude.{
  ℕ, suc, ◌+◌, ◌-◌, ◌≤◌, ◌<◌, ◌≡◌, ap, sym, ◌∙◌, String, List, [], ◌∷◌, false, arith, length, ok,
  Any, All, inl, inr, Result, ◌==◌, ok_injective,
}
use sreon_call.Scheduling.Duration.{max_duration}
use sreon_call.Scheduling.Rotation.{
  TimeLib, Schedule, Override, Shift, RotationError, epoch, shift_duration_of, shift_at,
  base_shifts, on_call_at,
}
use sreon_call.Scheduling.Rotation.OnCall.{
  Holds, on_call_at_lem, from_rotation_known, shift_duration_pos, shift_at_total, on_call_at_total,
}
use sreon_call.Scheduling.Rotation.Shifts.{
  Covers, Agrees, base_shifts_total, base_shifts-Agree, base_shifts_not_override,
}
use sreon_call.Scheduling.Overrides.{apply_overrides}
use sreon_call.Scheduling.Overrides.Cover.{apply_overrides-Covers}
use sreon_call.Scheduling.Overrides.Agree.{
  AreApart, IsRight, IsUser, AreApart-unique, apply_overrides-IsRight,
}
use sreon_call.Scheduling.Generate.{generate_shifts}

-- The base shifts that hold an instant name the rotation's user.
base_users :
    (rotation : List String) (epoch d t : ℕ) (r : String × ℕ × ℕ) (l : List Shift)
    → shift_at rotation epoch d t ≡ ok r
    → All (λ s. Covers t s → Agrees rotation epoch d t s) l
    → All (IsUser t r.0) l
base_users rotation epoch d t r [] e h = tt
base_users rotation epoch d t r (s ∷ l) e h = (
  λ c.
      let (q, k, user) = h.0 c in
      user ∙ ap (λ (x : String × ℕ × ℕ). x.0) (ok_injective (sym k ∙ e)),
  base_users rotation epoch d t r l e h.1,
)

base_holds :
    (rotation : List String) (epoch d t : ℕ) (l : List Shift)
    → Any (λ s. Covers t s × Agrees rotation epoch d t s) l
    → Any (Covers t) l
base_holds rotation epoch d t [] h = h
base_holds rotation epoch d t (s ∷ l) (inl h) = inl h.0
base_holds rotation epoch d t (s ∷ l) (inr h) = inr (base_holds rotation epoch d t l h)

-- Two overrides' facts at once give an equation of users.
same_user :
    (os : List Override) (x : Shift) (r : String × ℕ × ℕ)
    → Any
        (λ o.
          (x.user_id ≡ o.user_id)
          × (◌≡◌ {A = Result RotationError (String × ℕ × ℕ)}
              (ok r)
              (ok (o.user_id, o.start_at, o.end_at))))
        os
    → x.user_id ≡ r.0
same_user [] x r h = absurd h
same_user (o ∷ os) x r (inl h) = h.0 ∙ ap (λ (y : String × ℕ × ℕ). y.0) (sym (ok_injective h.1))
same_user (o ∷ os) x r (inr h) = same_user os x r h

no_holder :
    (P : Override → Type 0) (os : List Override) (t : ℕ)
    → All (λ p. ¬ Holds p t) os
    → ¬ Any (λ o. Holds o t × P o) os
no_holder P [] t h k = k
no_holder P (o ∷ os) t h (inl k) = h.0 k.0
no_holder P (o ∷ os) t h (inr k) = no_holder P os t h.1 k

module _ (lib : TimeLib) (s : Schedule) (os : List Override) (d : ℕ)
    (some_member : 0 < length s.rotation) (parsed : shift_duration_of s ≡ ok d) where
  -- Who is on call by `OnCallAt`, and that a right shift names them.
  on_call_known :
      (t : ℕ) (r : String × ℕ × ℕ) (x : Shift)
      → shift_at s.rotation (epoch lib s) d t ≡ ok r
      → AreApart os
      → IsRight t r.0 os x
      → (q : String × ℕ × ℕ) → on_call_at lib s os t ≡ ok q
      → x.user_id ≡ q.0
  on_call_known t r x e apart right q on_call = elim (on_call_at_lem lib s os t (ok q) on_call) [
    | inl over ↦ elim right [
      | inl (_, holder) ↦ same_user os x q (AreApart-unique _ _ os t apart holder over)
      | inr (_, _, none_holds) ↦ absurd (no_holder _ os t none_holds over)
    ]
    | inr (none_holds, base) ↦ elim right [
      | inl (_, holder) ↦ absurd (no_holder _ os t none_holds holder)
      | inr (_, user, _) ↦
          user
          ∙ ap (λ (y : String × ℕ × ℕ). y.0)
              (ok_injective (sym (base ∙ from_rotation_known lib s t d some_member parsed ∙ e)))
    ]
  ]

right_users :
    (lib : TimeLib) (s : Schedule) (os : List Override) (d : ℕ)
    → 0 < length s.rotation
    → shift_duration_of s ≡ ok d
    → (t : ℕ) (r q : String × ℕ × ℕ) (l : List Shift) → shift_at s.rotation (epoch lib s) d t ≡ ok r
    → AreApart os
    → on_call_at lib s os t ≡ ok q
    → All (λ x. Covers t x → IsRight t r.0 os x) l
    → All (λ x. Covers t x → x.user_id ≡ q.0) l
right_users lib s os d some_member parsed t r q [] e apart on_call h = tt
right_users lib s os d some_member parsed t r q (x ∷ l) e apart on_call h = (
  λ c. on_call_known lib s os d some_member parsed t r x e apart (h.0 c) q on_call,
  right_users lib s os d some_member parsed t r q l e apart on_call h.1,
)

generate_shifts_known :
    (lib : TimeLib) (s : Schedule) (os : List Override) (from to d : ℕ) (base : List Shift)
    → 0 < length s.rotation
    → shift_duration_of s ≡ ok d
    → base_shifts (suc (to - from)) s.rotation (epoch lib s) d to from ≡ ok base
    → generate_shifts lib s os from to ≡ ok (apply_overrides base os from to)
unfolding generate_shifts
generate_shifts_known lib s os from to d base some_member parsed e =
    let busy : (length s.rotation == 0) ≡ false = ground arith in rw busy (rw parsed (rw e))

-- For a schedule with a member and a duration that parses, and a window that begins at the rotation's
-- epoch or later and ends within 292 years of it, `GenerateShifts` returns. If the overrides are in
-- order and do not overlap, then at each instant of the window `OnCallAt` has an answer, some shift
-- holds the instant, and every shift that holds it names the user of the answer.
pub generate_shifts_agree :
    (lib : TimeLib) (s : Schedule) (os : List Override) (from to d : ℕ)
    → 0 < length s.rotation
    → shift_duration_of s ≡ ok d
    → epoch lib s ≤ from
    → to ≤ epoch lib s + max_duration
    → AreApart os
    → (l : List Shift) × (generate_shifts lib s os from to ≡ ok l)
      × ((t : ℕ)
          → from ≤ t
          → t < to
          → (q : String × ℕ × ℕ) × (on_call_at lib s os t ≡ ok q)
            × Any (Covers t) l
            × All (λ x. Covers t x → x.user_id ≡ q.0) l)
generate_shifts_agree lib s os from to d some_member parsed after near apart =
    let start = epoch lib s in
    let pos = shift_duration_pos s d parsed in
    let (base, e) =
      base_shifts_total (suc (to - from)) s.rotation start d to from some_member pos near
        (omega arith) in
    (
      apply_overrides base os from to,
      generate_shifts_known lib s os from to d base some_member parsed e,
      λ t lo hi.
          let (r, k) = shift_at_total s.rotation start d t some_member in
          let known = from_rotation_known lib s t d some_member parsed ∙ k in
          let (q, on_call) = on_call_at_total lib s os t r known in
          let (agree, holds) =
            base_shifts-Agree (suc (to - from)) s.rotation start d to from t base pos after near
              e in
          (
            q,
            on_call,
            apply_overrides-Covers base os from to t
                (base_holds s.rotation start d t base (holds lo hi)),
            right_users lib s os d some_member parsed t r q (apply_overrides base os from to) k
                apart on_call
                (apply_overrides-IsRight base os from to t r.0 lo hi apart
                  (base_shifts_not_override (suc (to - from)) s.rotation start d to from base e)
                  (base_users s.rotation start d t r base k agree)),
          ),
    )
