-- ===== src/Scheduling/Roster/Schedules/Apart.antt =====
-- The overrides of a schedule do not overlap (services/scheduling/internal/store/store.go).
use sreon_call.Prelude.{
  ℕ, ◌≤◌, ◌<◌, ◌≡◌, ◌≢◌, ◌∙◌, sym, inl, inr, ◌⊎◌, String, str_eq, eq_iff, List, [], ◌∷◌, ◌++◌, Bool,
  true, false, none, arith, Bool-cases, All, All-filter, All-append, filter, insert_by, sort_by,
}
use sreon_call.Scheduling.Rotation.{Override}
use sreon_call.Scheduling.Overrides.Agree.{AreApart}
use sreon_call.Scheduling.Roster.Schedules.{starts_first, overlaps, first, in_window, window_rows}

abbrev pub Before : Override → Override → Type 0
Before o p = (o.end_at ≤ p.start_at) ⊎ (p.end_at ≤ o.start_at)

-- Rows of the same schedule have windows that do not overlap.
abbrev pub DoNotMeet : Override → Override → Type 0
DoNotMeet o p = o.schedule_id ≡ p.schedule_id → Before o p

-- No window is empty, and no two rows of one schedule meet.
abbrev pub AreDisjoint : List Override → Type 0
AreDisjoint [] = Unit
AreDisjoint (o ∷ os) = (o.start_at < o.end_at) × All (DoNotMeet o) os × AreDisjoint os

pub filter-AreDisjoint :
    (p : Override → Bool) (os : List Override) → AreDisjoint os → AreDisjoint (filter p os)
filter-AreDisjoint p [] h = tt
filter-AreDisjoint p (o ∷ os) (pos, apart, rest) = elim (Bool-cases (p o)) [
  | inl hit ↦ rw hit (pos, All-filter (DoNotMeet o) p os apart, filter-AreDisjoint p os rest)
  | inr miss ↦ rw miss (filter-AreDisjoint p os rest)
]

-- ── A row that is added

not_met : (o row : Override) → overlaps o row ≡ false → DoNotMeet row o
not_met o row h same =
    let named : str_eq row.schedule_id o.schedule_id ≡ true =
      (eq_iff row.schedule_id o.schedule_id).1 same in
    ground arith

pub insert_by-ne-none :
    (row : Override) (os : List Override) → first (insert_by starts_first row os) ≢ none
insert_by-ne-none row [] h = cc
insert_by-ne-none row (o ∷ os) h = elim (Bool-cases (starts_first row o)) [
  | inl before ↦ let k = rw before at h in cc
  | inr after ↦ let k = rw after at h in cc
]

none_met :
    (o : Override) (os : List Override)
    → first (sort_by starts_first (filter (overlaps o) os)) ≡ none
    → All (λ row. DoNotMeet row o) os
none_met o [] h = tt
none_met o (row ∷ os) h = elim (Bool-cases (overlaps o row)) [
  | inl hit ↦
      absurd (insert_by-ne-none row (sort_by starts_first (filter (overlaps o) os)) (rw hit at h))
  | inr miss ↦ (not_met o row miss, none_met o os (rw miss at h))
]

append-AreDisjoint :
    (os : List Override) (o : Override)
    → AreDisjoint os
    → o.start_at < o.end_at
    → All (λ row. DoNotMeet row o) os
    → AreDisjoint (os ++ (o ∷ []))
append-AreDisjoint [] o h pos apart = (pos, tt, tt)
append-AreDisjoint (row ∷ os) o (pos', among, rest) pos (meet, apart) = (
  pos',
  All-append (DoNotMeet row) os (o ∷ []) among (meet, tt),
  append-AreDisjoint os o rest pos apart,
)

-- A row that the check for overlaps finds nothing for may be added.
pub added-AreDisjoint :
    (o : Override) (os : List Override)
    → AreDisjoint os
    → o.start_at < o.end_at
    → first (sort_by starts_first (filter (overlaps o) os)) ≡ none
    → AreDisjoint (os ++ (o ∷ []))
added-AreDisjoint o os h pos unmet = append-AreDisjoint os o h pos (none_met o os unmet)

-- ── ORDER BY start_at

All-insert_by :
    (P : Override → Type 0) (o : Override) (os : List Override)
    → P o
    → All P os
    → All P (insert_by starts_first o os)
All-insert_by P o [] k h = (k, tt)
All-insert_by P o (p ∷ ps) k h = elim (Bool-cases (starts_first o p)) [
  | inl before ↦ rw before (k, h)
  | inr after ↦ rw after (h.0, All-insert_by P o ps k h.1)
]

pub All-sort_by :
    (P : Override → Type 0) (os : List Override) → All P os → All P (sort_by starts_first os)
All-sort_by P [] h = tt
All-sort_by P (o ∷ os) h = All-insert_by P o (sort_by starts_first os) h.0 (All-sort_by P os h.1)

later_too :
    (b : ℕ) (p : Override) (ps : List Override)
    → b ≤ p.start_at
    → p.start_at < p.end_at
    → All (λ q. p.end_at ≤ q.start_at) ps
    → All (λ q. b ≤ q.start_at) ps
later_too b p [] le pos h = tt
later_too b p (q ∷ ps) le pos h = (omega arith, later_too b p ps le pos h.1)

insert_by-AreApart :
    (o : Override) (os : List Override)
    → o.start_at < o.end_at
    → All (Before o) os
    → AreApart os
    → AreApart (insert_by starts_first o os)
insert_by-AreApart o [] pos apart h = (pos, tt, tt)
insert_by-AreApart o (p ∷ ps) pos (now, apart) (pos', after, rest) =
    elim (Bool-cases (starts_first o p)) [
      | inl before ↦
          let le : o.end_at ≤ p.start_at = ground arith in
          rw before (pos, (le, later_too o.end_at p ps le pos' after), (pos', after, rest))
      | inr late ↦
          let le : p.end_at ≤ o.start_at = ground arith in
          rw late (
            pos',
            All-insert_by (λ q. p.end_at ≤ q.start_at) o ps le after,
            insert_by-AreApart o ps pos apart rest,
          )
    ]

-- Rows of one schedule, none of which meets o.
pub All-Before :
    (id : String) (o : Override) (os : List Override)
    → o.schedule_id ≡ id
    → All (λ p. p.schedule_id ≡ id) os
    → All (DoNotMeet o) os
    → All (Before o) os
All-Before id o [] named same h = tt
All-Before id o (p ∷ ps) named same h =
    (h.0 (named ∙ sym same.0), All-Before id o ps named same.1 h.1)

pub sort_by-AreApart :
    (id : String) (os : List Override)
    → All (λ p. p.schedule_id ≡ id) os
    → AreDisjoint os
    → AreApart (sort_by starts_first os)
sort_by-AreApart id [] same h = tt
sort_by-AreApart id (o ∷ os) same (pos, apart, rest) =
    insert_by-AreApart o (sort_by starts_first os) pos
      (All-sort_by (Before o) os (All-Before id o os same.0 same.1 apart))
      (sort_by-AreApart id os same.1 rest)

pub filter-named :
    (tenant_id id : String) (from to : ℕ) (os : List Override)
    → All (λ p. p.schedule_id ≡ id) (filter (in_window tenant_id id from to) os)
filter-named tenant_id id from to [] = tt
filter-named tenant_id id from to (o ∷ os) = elim (Bool-cases (in_window tenant_id id from to o)) [
  | inl hit ↦
      let named : str_eq o.schedule_id id ≡ true = ground arith in
      rw hit ((eq_iff o.schedule_id id).0 named, filter-named tenant_id id from to os)
  | inr miss ↦ rw miss (filter-named tenant_id id from to os)
]

-- The rows of a window come in order and do not overlap.
pub window_rows-AreApart :
    (tenant_id id : String) (from to : ℕ) (os : List Override)
    → AreDisjoint os
    → AreApart (window_rows tenant_id id from to os)
window_rows-AreApart tenant_id id from to os h =
    sort_by-AreApart id (filter (in_window tenant_id id from to) os)
      (filter-named tenant_id id from to os)
      (filter-AreDisjoint (in_window tenant_id id from to) os h)
