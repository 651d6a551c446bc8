-- ===== src/Scheduling/Overrides/Agree.antt =====
-- Overrides laid over the base shifts (`applyOverrides` of
-- services/scheduling/internal/rotation/rotation.go) say what `OnCallAt` says, where the overrides are
-- in order and do not overlap.
use sreon_call.Prelude.{
  ℕ, ◌≤◌, ◌<◌, ◌≡◌, refl, String, List, [], ◌∷◌, true, false, arith, Any, All, All-append, inl, inr,
  ◌⊎◌, ◌∙◌,
}
use sreon_call.Scheduling.Rotation.{Override, Shift}
use sreon_call.Scheduling.Rotation.OnCall.{Holds}
use sreon_call.Scheduling.Rotation.Shifts.{Covers}
use sreon_call.Scheduling.Overrides.{clamp_end, cut_one, cut_shift, cut_all, apply_overrides}

-- Non-empty windows, each after the one before it: what `CreateOverride`'s overlap check and
-- `ORDER BY start_at` give.
abbrev pub AreApart : List Override → Type 0
AreApart [] = Unit
AreApart (o ∷ os) = (o.start_at < o.end_at) × All (λ p. o.end_at ≤ p.start_at) os × AreApart os

-- A piece that holds the instant is an override's that holds it, with the override's user, or a part
-- of the base shift at an instant that no override holds.
abbrev pub IsRight : ℕ → String → List Override → Shift → Type 0
IsRight t user os x =
    ((x.is_override ≡ true) × Any (λ o. Holds o t × (x.user_id ≡ o.user_id)) os)
    ⊎ ((x.is_override ≡ false) × (x.user_id ≡ user) × All (λ o. ¬ Holds o t) os)

-- No override that starts later holds the instant.
later_not_holding :
    (os : List Override) (b t : ℕ)
    → t < b
    → All (λ p. b ≤ p.start_at) os
    → All (λ p. ¬ Holds p t) os
later_not_holding [] b t lt h = tt
later_not_holding (o ∷ os) b t lt h = ((λ k. omega arith), later_not_holding os b t lt h.1)

-- The claim for the rest of the loop, with the bound from below that the pieces of the base keep.
abbrev Claim : ℕ → ℕ → Shift → List Override → Shift → Type 0
Claim t cur s os x =
    Covers t x → IsRight t s.user_id os x × (x.is_override ≡ false → (cur ≤ t) × (t < s.end_at))

cut_one_right :
    (from to : ℕ) (s : Shift) (o : Override) (os : List Override) (cur t : ℕ)
    → from ≤ t
    → t < to
    → s.start_at ≤ cur
    → All (λ p. o.end_at ≤ p.start_at) os
    → o.start_at < o.end_at
    → All (Claim t cur s (o ∷ os)) (cut_one from to s o cur).0
unfolding cut_one
cut_one_right from to s o os cur t lo hi start apart proper =
    ground (arith, later_not_holding os o.end_at t)

-- `cur` is where the base shift starts, or before all the overrides that are left.
abbrev Ready : Shift → ℕ → List Override → Type 0
Ready s cur os = (s.start_at ≤ cur) × ((cur ≡ s.start_at) ⊎ All (λ p. cur ≤ p.start_at) os)

All-le_trans :
    (os : List Override) (a b : ℕ)
    → a ≤ b
    → All (λ p. b ≤ p.start_at) os
    → All (λ p. a ≤ p.start_at) os
All-le_trans [] a b h k = tt
All-le_trans (o ∷ os) a b h k = (omega arith, All-le_trans os a b h k.1)

cut_one-Ready :
    (from to : ℕ) (s : Shift) (o : Override) (os : List Override) (cur : ℕ)
    → All (λ p. o.end_at ≤ p.start_at) os
    → Ready s cur (o ∷ os)
    → Ready s (cut_one from to s o cur).1 os
unfolding cut_one
cut_one-Ready from to s o os cur apart ready =
    ground (arith, All-le_trans os (clamp_end to o) o.end_at)

-- A later piece of the base shift lies after the override, or the override does not reach it.
cut_one_after :
    (from to : ℕ) (s : Shift) (o : Override) (os : List Override) (cur t : ℕ)
    → from ≤ t
    → t < to
    → Ready s cur (o ∷ os)
    → (cut_one from to s o cur).1 ≤ t
    → t < s.end_at
    → ¬ Holds o t × (cur ≤ t)
unfolding cut_one
cut_one_after from to s o os cur t lo hi ready later before = ground arith

-- What is right for the rest of the loop is right with the override that came before.
Claim-next :
    (from to : ℕ) (s : Shift) (o : Override) (os : List Override) (cur t : ℕ) (x : Shift)
    → from ≤ t
    → t < to
    → Ready s cur (o ∷ os)
    → Claim t (cut_one from to s o cur).1 s os x
    → Claim t cur s (o ∷ os) x
Claim-next from to s o os cur t x lo hi ready h c = elim ((h c).0) [
  | inl (over, holds) ↦ (inl (over, inr holds), λ base. cc)
  | inr (base, user, none_holds) ↦
      let (later, before) = (h c).1 base in
      let (out, after) = cut_one_after from to s o os cur t lo hi ready later before in
      (inr (base, user, (out, none_holds)), λ _. (after, before))
]

All-Claim-next :
    (from to : ℕ) (s : Shift) (o : Override) (os : List Override) (cur t : ℕ) (l : List Shift)
    → from ≤ t
    → t < to
    → Ready s cur (o ∷ os)
    → All (Claim t (cut_one from to s o cur).1 s os) l
    → All (Claim t cur s (o ∷ os)) l
All-Claim-next from to s o os cur t [] lo hi ready h = tt
All-Claim-next from to s o os cur t (x ∷ l) lo hi ready h = (
  Claim-next from to s o os cur t x lo hi ready h.0,
  All-Claim-next from to s o os cur t l lo hi ready h.1,
)

cut_shift_right :
    (from to : ℕ) (s : Shift) (os : List Override) (cur t : ℕ)
    → from ≤ t
    → t < to
    → AreApart os
    → Ready s cur os
    → All (Claim t cur s os) (cut_shift from to s os cur)
unfolding cut_shift
cut_shift_right from to s [] cur t lo hi apart ready = ground arith
cut_shift_right from to s (o ∷ os) cur t lo hi apart ready =
    let (out, next) = cut_one from to s o cur in
    All-append (Claim t cur s (o ∷ os)) out (cut_shift from to s os next)
      (cut_one_right from to s o os cur t lo hi ready.0 apart.1 apart.0)
      (All-Claim-next from to s o os cur t (cut_shift from to s os next) lo hi ready (
        cut_shift_right from to s os next t lo hi apart.2
          (cut_one-Ready from to s o os cur apart.1 ready)))

-- The user of a base shift that holds the instant is `user`.
abbrev pub IsUser : ℕ → String → Shift → Type 0
IsUser t user s = Covers t s → s.user_id ≡ user

Claim-IsRight :
    (t : ℕ) (user : String) (s : Shift) (os : List Override) (l : List Shift)
    → IsUser t user s
    → All (Claim t s.start_at s os) l
    → All (λ x. Covers t x → IsRight t user os x) l
Claim-IsRight t user s os [] is_user h = tt
Claim-IsRight t user s os (x ∷ l) is_user h = (
  λ c. elim ((h.0 c).0) [
    | inl over ↦ inl over
    | inr (base, same, none_holds) ↦ inr (base, same ∙ is_user ((h.0 c).1 base), none_holds)
  ],
  Claim-IsRight t user s os l is_user h.1,
)

cut_all-IsRight :
    (base : List Shift) (os : List Override) (from to t : ℕ) (user : String)
    → from ≤ t
    → t < to
    → AreApart os
    → All (IsUser t user) base
    → All (λ x. Covers t x → IsRight t user os x) (cut_all base os from to)
unfolding cut_all
cut_all-IsRight [] os from to t user lo hi apart h = tt
cut_all-IsRight (s ∷ base) os from to t user lo hi apart h =
    All-append (λ x. Covers t x → IsRight t user os x) (cut_shift from to s os s.start_at)
      (cut_all base os from to)
      (Claim-IsRight t user s os (cut_shift from to s os s.start_at) h.0
        (cut_shift_right from to s os s.start_at t lo hi apart (omega arith, inl refl)))
      (cut_all-IsRight base os from to t user lo hi apart h.1)

-- A base shift as the loop of `GenerateShifts` makes it.
abbrev pub IsBase : Shift → Type 0
IsBase s = s.is_override ≡ false

base-IsRight :
    (base : List Shift) (t : ℕ) (user : String)
    → All IsBase base
    → All (IsUser t user) base
    → All (λ x. Covers t x → IsRight t user [] x) base
base-IsRight [] t user b h = tt
base-IsRight (s ∷ base) t user b h = ((λ c. inr (b.0, h.0 c, tt)), base-IsRight base t user b.1 h.1)

-- Inside the window every shift that holds an instant names the right user: that of an override which
-- holds the instant, or the user of the base shifts where no override holds it.
pub apply_overrides-IsRight :
    (base : List Shift) (os : List Override) (from to t : ℕ) (user : String)
    → from ≤ t
    → t < to
    → AreApart os
    → All IsBase base
    → All (IsUser t user) base
    → All (λ x. Covers t x → IsRight t user os x) (apply_overrides base os from to)
unfolding apply_overrides
apply_overrides-IsRight base [] from to t user lo hi apart b h = base-IsRight base t user b h
apply_overrides-IsRight base (o ∷ os) from to t user lo hi apart b h =
    cut_all-IsRight base (o ∷ os) from to t user lo hi apart h

not_holding-Any :
    (P : Override → Type 0) (os : List Override) (t : ℕ)
    → All (λ p. ¬ Holds p t) os
    → ¬ Any (λ o. Holds o t × P o) os
not_holding-Any P [] t h k = k
not_holding-Any P (o ∷ os) t h (inl k) = h.0 k.0
not_holding-Any P (o ∷ os) t h (inr k) = not_holding-Any P os t h.1 k

-- At most one of the overrides holds an instant.
pub AreApart-unique :
    (P Q : Override → Type 0) (os : List Override) (t : ℕ)
    → AreApart os
    → Any (λ o. Holds o t × P o) os
    → Any (λ o. Holds o t × Q o) os
    → Any (λ o. P o × Q o) os
AreApart-unique P Q [] t apart p q = p
AreApart-unique P Q (o ∷ os) t apart (inl p) (inl q) = inl (p.1, q.1)
AreApart-unique P Q (o ∷ os) t apart (inl p) (inr q) =
    absurd (not_holding-Any Q os t (later_not_holding os o.end_at t p.0.1 apart.1) q)
AreApart-unique P Q (o ∷ os) t apart (inr p) (inl q) =
    absurd (not_holding-Any P os t (later_not_holding os o.end_at t q.0.1 apart.1) p)
AreApart-unique P Q (o ∷ os) t apart (inr p) (inr q) = inr (AreApart-unique P Q os t apart.2 p q)
