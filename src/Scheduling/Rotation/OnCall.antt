-- ===== src/Scheduling/Rotation/OnCall.antt =====
-- Who is on call: laws of `OnCallAt` and `fromRotation`
-- (services/scheduling/internal/rotation/rotation.go).
use native.Mathlib.Nat.{div-mul-le_self, lt-div-mul-add, div-eq_of_lt-le}
use sreon_call.Prelude.{
  not, ◌&&◌, sym, ◌∙◌, ℕ, ◌+◌, ◌-◌, ◌*◌, ◌/◌, ◌%◌, ◌≤◌, ◌<◌, ◌≡◌, String, List, [], ◌∷◌, Bool, true,
  false, arith, length, get_elem?_in_range, Result, ok, bind-eq-ok, All, Any, ◌⊎◌, inl, inr, ltb,
  ◌==◌, Bool-cases,
}
use sreon_call.Scheduling.Duration.{max_duration}
use sreon_call.Scheduling.Duration.Laws.{parse_bounds}
use sreon_call.Scheduling.Rotation.{
  Schedule, Override, RotationError, TimeLib, epoch, elapsed_since, shift_duration_of, member_of,
  shift_at, from_rotation, on_call_at,
}

-- The override's window, [start_at, end_at), holds the instant.
abbrev pub Holds : Override → ℕ → Type 0
Holds o at = (o.start_at ≤ at) × (at < o.end_at)

holds_test : Override → ℕ → Bool
holds_test o at = not (ltb at o.start_at) && ltb at o.end_at

Holds-of_test : (o : Override) (at : ℕ) → holds_test o at ≡ true → Holds o at
unfolding holds_test
Holds-of_test o at h = ground arith

not-Holds_of_test : (o : Override) (at : ℕ) → holds_test o at ≡ false → ¬ Holds o at
unfolding holds_test
not-Holds_of_test o at h k = ground arith

-- `OnCallAt` answers with an override whose window holds the instant, with its user and its window,
-- and only if there is none with the rotation.
pub on_call_at_lem :
    (lib : TimeLib) (s : Schedule) (os : List Override) (at : ℕ)
    → (r : Result RotationError (String × ℕ × ℕ)) → on_call_at lib s os at ≡ r
    → Any (λ o. Holds o at × (r ≡ ok (o.user_id, o.start_at, o.end_at))) os
      ⊎ (All (λ o. ¬ Holds o at) os × (r ≡ from_rotation lib s at))
unfolding on_call_at holds_test
on_call_at_lem lib s [] at r e = inr (tt, sym e)
on_call_at_lem lib s (o ∷ os) at r e = elim (Bool-cases (holds_test o at)) [
  | inl h ↦ inl (inl (Holds-of_test o at h, sym (rw h at e)))
  | inr h ↦ elim (on_call_at_lem lib s os at r (rw h at e)) [
    | inl a ↦ inl (inr a)
    | inr (none_holds, q) ↦ inr ((not-Holds_of_test o at h, none_holds), q)
  ]
]

member_of_total :
    (rotation : List String) (n : ℕ)
    → 0 < length rotation
    → (u : String) × (member_of rotation n ≡ ok u)
unfolding member_of
member_of_total rotation n h =
    let found = get_elem?_in_range rotation (n % length rotation) (grind arith) in
    (found.0, rw (found.1, member_of))

pub round_bounds : (x d : ℕ) → 0 < d → (x / d * d ≤ x) × (x < x / d * d + d)
round_bounds x d pos = (div-mul-le_self x d, lt-div-mul-add pos)

elapsed_near : (epoch at : ℕ) → at ≤ epoch + max_duration → elapsed_since epoch at ≡ at - epoch
unfolding elapsed_since
elapsed_near epoch at h = ground arith

-- The window that a round of the rotation gives to an instant of an answer.
pub shift_at_parts :
    (rotation : List String) (epoch d at : ℕ) (r : String × ℕ × ℕ)
    → at ≤ epoch + max_duration
    → shift_at rotation epoch d at ≡ ok r
    → (member_of rotation ((at - epoch) / d) ≡ ok r.0)
      × (r.1 ≡ epoch + (at - epoch) / d * d)
      × (r.2 ≡ r.1 + d)
unfolding shift_at
shift_at_parts rotation epoch d at r near h =
    let (u, m, e) = bind-eq-ok (member_of rotation (elapsed_since epoch at / d)) _ h in
    let el : elapsed_since epoch at ≡ at - epoch = elapsed_near epoch at near in ground arith

-- The shift holds the instant and lasts the shift's duration.
pub shift_at_window :
    (rotation : List String) (epoch d at : ℕ) (r : String × ℕ × ℕ)
    → 0 < d
    → epoch ≤ at
    → at ≤ epoch + max_duration
    → shift_at rotation epoch d at ≡ ok r
    → (r.1 ≤ at) × (at < r.2) × (r.2 ≡ r.1 + d)
shift_at_window rotation epoch d at r pos after near h =
    let (_, start, end) = shift_at_parts rotation epoch d at r near h in
    omega (arith, round_bounds (at - epoch) d pos)

-- Two instants in one shift's window are in the same round.
round_unique : (x y d : ℕ) → 0 < d → x / d * d ≤ y → y < x / d * d + d → y / d ≡ x / d
round_unique x y d pos lo hi = div-eq_of_lt-le d lo (omega arith)

-- The answer of the rotation is the same at every instant of the answer's window, from the start of
-- the rotation on and within the 292 years that a `time.Duration` spans.
pub shift_at_stable :
    (rotation : List String) (epoch d at at' : ℕ) (r : String × ℕ × ℕ)
    → 0 < d
    → epoch ≤ at
    → at ≤ epoch + max_duration
    → at' ≤ epoch + max_duration
    → shift_at rotation epoch d at ≡ ok r
    → r.1 ≤ at'
    → at' < r.2
    → shift_at rotation epoch d at' ≡ ok r
unfolding shift_at
shift_at_stable rotation epoch d at at' r pos after near near' h lo hi =
    let (m, start, end) = shift_at_parts rotation epoch d at r near h in
    let same : elapsed_since epoch at' / d ≡ elapsed_since epoch at / d =
      rw (elapsed_near epoch at' near') (
        rw (elapsed_near epoch at near)
          (round_unique (at - epoch) (at' - epoch) d pos (omega arith) (omega arith))) in
    rw same h

pub shift_at_total :
    (rotation : List String) (epoch d at : ℕ)
    → 0 < length rotation
    → (r : String × ℕ × ℕ) × (shift_at rotation epoch d at ≡ ok r)
unfolding shift_at
shift_at_total rotation epoch d at some_member =
    let n = elapsed_since epoch at / d in
    let found = member_of_total rotation n some_member in
    ((found.0, epoch + n * d, epoch + n * d + d), rw (found.1))

pub from_rotation_known :
    (lib : TimeLib) (s : Schedule) (at d : ℕ)
    → 0 < length s.rotation
    → shift_duration_of s ≡ ok d
    → from_rotation lib s at ≡ shift_at s.rotation (epoch lib s) d at
unfolding from_rotation
from_rotation_known lib s at d some_member parsed =
    let busy : (length s.rotation == 0) ≡ false = ground arith in rw busy (rw parsed)

pub shift_duration_pos : (s : Schedule) (d : ℕ) → shift_duration_of s ≡ ok d → 0 < d
unfolding shift_duration_of
shift_duration_pos s d h = ground (arith, parse_bounds s.shift_duration d)

-- With a member and a duration that parses the rotation always has an answer: the index is never
-- out of range. From the epoch on and within the 292 years of a `time.Duration` the answer's window
-- holds the instant and lasts the duration, and every instant of the window has the same answer.
pub from_rotation_lem :
    (lib : TimeLib) (s : Schedule) (at d : ℕ)
    → 0 < length s.rotation
    → shift_duration_of s ≡ ok d
    → epoch lib s ≤ at
    → at ≤ epoch lib s + max_duration
    → (r : String × ℕ × ℕ) × (from_rotation lib s at ≡ ok r)
      × (r.1 ≤ at)
      × (at < r.2)
      × (r.2 ≡ r.1 + d)
      × ((at' : ℕ)
          → r.1 ≤ at'
          → at' < r.2
          → at' ≤ epoch lib s + max_duration
          → from_rotation lib s at' ≡ ok r)
from_rotation_lem lib s at d some_member parsed after near =
    let pos = shift_duration_pos s d parsed in
    let known = λ (x : ℕ). from_rotation_known lib s x d some_member parsed in
    let (r, e) = shift_at_total s.rotation (epoch lib s) d at some_member in
    let (lo, hi, lasts) = shift_at_window s.rotation (epoch lib s) d at r pos after near e in
    (
      r,
      known at ∙ e,
      lo,
      hi,
      lasts,
      λ at' lo' hi' near'.
          known at'
          ∙ shift_at_stable s.rotation (epoch lib s) d at at' r pos after near near' e lo' hi',
    )

-- Where the rotation has an answer, so has `OnCallAt`.
pub on_call_at_total :
    (lib : TimeLib) (s : Schedule) (os : List Override) (at : ℕ) (r : String × ℕ × ℕ)
    → from_rotation lib s at ≡ ok r
    → (q : String × ℕ × ℕ) × (on_call_at lib s os at ≡ ok q)
unfolding on_call_at holds_test
on_call_at_total lib s [] at r e = (r, e)
on_call_at_total lib s (o ∷ os) at r e = elim (Bool-cases (holds_test o at)) [
  | inl h ↦ ((o.user_id, o.start_at, o.end_at), rw h)
  | inr h ↦ let (q, k) = on_call_at_total lib s os at r e in (q, rw h k)
]
