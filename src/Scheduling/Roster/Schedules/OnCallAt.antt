-- ===== src/Scheduling/Roster/Schedules/OnCallAt.antt =====
-- Which window the overrides are read for does not matter to `OnCallAt`
-- (services/scheduling/internal/rotation/rotation.go), as long as it holds the instant.
use sreon_call.Prelude.{
  ℕ, ◌≤◌, ◌<◌, ◌≡◌, refl, sym, ◌∙◌, inl, inr, String, List, [], ◌∷◌, Bool, true, false, not, ◌&&◌,
  arith, ltb, Bool-cases, All, filter, insert_by, sort_by,
}
use sreon_call.Scheduling.Rotation.{TimeLib, Schedule, Override, on_call_at}
use sreon_call.Scheduling.Roster.Schedules.{starts_first, in_window, window_rows}
use sreon_call.Scheduling.Roster.Schedules.Apart.{
  Before, AreDisjoint, All-sort_by, filter-AreDisjoint, All-Before, filter-named,
}

-- The test of the loop of `OnCallAt`.
abbrev holds : ℕ → Override → Bool
holds t o = not (ltb t o.start_at) && ltb t o.end_at

not_both : (o p : Override) (t : ℕ) → Before o p → holds t o ≡ true → holds t p ≡ false
not_both o p t h k = ground arith

module _ (lib : TimeLib) (s : Schedule) (t : ℕ) where
  same_tail :
      (o : Override) (os ps : List Override)
      → on_call_at lib s os t ≡ on_call_at lib s ps t
      → on_call_at lib s (o ∷ os) t ≡ on_call_at lib s (o ∷ ps) t
  unfolding on_call_at
  same_tail o os ps h = rw h refl

  swapped :
      (o p : Override) (os : List Override)
      → Before o p
      → on_call_at lib s (o ∷ p ∷ os) t ≡ on_call_at lib s (p ∷ o ∷ os) t
  unfolding on_call_at
  swapped o p os h = elim (Bool-cases (holds t o)) [
    | inl hit ↦ rw hit (rw (not_both o p t h hit) refl)
    | inr miss ↦ rw miss refl
  ]

  skipped :
      (o : Override) (os : List Override)
      → holds t o ≡ false
      → on_call_at lib s (o ∷ os) t ≡ on_call_at lib s os t
  unfolding on_call_at
  skipped o os miss = rw miss refl

  inserted :
      (o : Override) (os : List Override)
      → All (Before o) os
      → on_call_at lib s (insert_by starts_first o os) t ≡ on_call_at lib s (o ∷ os) t
  inserted o [] h = refl
  inserted o (p ∷ ps) h = elim (Bool-cases (starts_first o p)) [
    | inl before ↦ rw before refl
    | inr after ↦ rw after (
        same_tail p (insert_by starts_first o ps) (o ∷ ps) (inserted o ps h.1)
        ∙ sym (swapped o p ps h.0))
  ]

  -- The order of the rows does not matter.
  sorted :
      (id : String) (os : List Override)
      → All (λ p. p.schedule_id ≡ id) os
      → AreDisjoint os
      → on_call_at lib s (sort_by starts_first os) t ≡ on_call_at lib s os t
  sorted id [] named h = refl
  sorted id (o ∷ os) named (pos, apart, rest) =
      inserted o (sort_by starts_first os)
        (All-sort_by (Before o) os (All-Before id o os named.0 named.1 apart))
      ∙ same_tail o (sort_by starts_first os) os (sorted id os named.1 rest)

  -- Nor does a row that does not hold the instant.
  filtered :
      (p q : Override → Bool) (os : List Override)
      → ((o : Override) → holds t o ≡ true → p o ≡ q o)
      → on_call_at lib s (filter p os) t ≡ on_call_at lib s (filter q os) t
  filtered p q [] h = refl
  filtered p q (o ∷ os) h =
      let rest = filtered p q os h in
      elim (Bool-cases (holds t o)) [
        | inl hit ↦ elim (Bool-cases (p o)) [
          | inl kept ↦
              rw kept (rw (sym (h o hit) ∙ kept) (same_tail o (filter p os) (filter q os) rest))
          | inr left ↦ rw left (rw (sym (h o hit) ∙ left) rest)
        ]
        | inr miss ↦ elim (Bool-cases (p o)) [
          | inl kept ↦ rw kept (elim (Bool-cases (q o)) [
            | inl kept' ↦ rw kept' (same_tail o (filter p os) (filter q os) rest)
            | inr left' ↦ rw left' (skipped o (filter p os) miss ∙ rest)
          ])
          | inr left ↦ rw left (elim (Bool-cases (q o)) [
            | inl kept' ↦ rw kept' (rest ∙ sym (skipped o (filter q os) miss))
            | inr left' ↦ rw left' rest
          ])
        ]
      ]

held_in_both :
    (tenant_id id : String) (from to from' to' t : ℕ) (o : Override)
    → from ≤ t
    → t < to
    → from' ≤ t
    → t < to'
    → holds t o ≡ true
    → in_window tenant_id id from to o ≡ in_window tenant_id id from' to' o
held_in_both tenant_id id from to from' to' t o lo hi lo' hi' h = ground arith

-- Where no two rows of a schedule meet, `OnCallAt` says the same by the rows of any two windows that
-- hold the instant.
pub same_on_call :
    (lib : TimeLib) (s : Schedule) (tenant_id id : String) (from to from' to' t : ℕ)
    (rows : List Override)
    → AreDisjoint rows
    → from ≤ t
    → t < to
    → from' ≤ t
    → t < to'
    → on_call_at lib s (window_rows tenant_id id from to rows) t
      ≡ on_call_at lib s (window_rows tenant_id id from' to' rows) t
same_on_call lib s tenant_id id from to from' to' t rows h lo hi lo' hi' =
    let p = in_window tenant_id id from to in
    let q = in_window tenant_id id from' to' in
    sorted lib s t id (filter p rows) (filter-named tenant_id id from to rows)
      (filter-AreDisjoint p rows h)
    ∙ filtered lib s t p q rows
        (λ o k. held_in_both tenant_id id from to from' to' t o lo hi lo' hi' k)
    ∙ sym (
        sorted lib s t id (filter q rows) (filter-named tenant_id id from' to' rows)
          (filter-AreDisjoint q rows h))
