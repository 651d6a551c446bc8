-- ===== src/Scheduling/Roster/Schedules/Conflicts.antt =====
-- What the check for overlaps of services/scheduling/internal/store/store.go (CreateOverride) lets
-- through, and what it keeps out.
use sreon_call.Prelude.{
  ℕ, suc, ◌≡◌, refl, subst, ap, ◌∙◌, inl, inr, str_eq, List, [], ◌∷◌, ◌++◌, Bool, true, false,
  Option, none, some, arith, Bool-cases, Result, ok, filter, sort_by,
}
use mathlib.Core.List.{append-nil, append_assoc}
use sreon_call.Effects.{calm, Err, Io, call, pure, ◌>>=◌}
use sreon_call.Scheduling.Rotation.{Override}
use sreon_call.Scheduling.Roster.{Roster}
use sreon_call.Scheduling.Roster.Schedules.{
  overlaps, meets, first, starts_first, find_overlap, insert_override, insert_unless, is_accepted,
  create_override, Creation, overlapping, of_schedule, list_overrides,
}
use sreon_call.Scheduling.Roster.Schedules.Apart.{AreDisjoint, insert_by-ne-none}

-- The row that the check finds.
abbrev pub met : Override → List Override → Option Override
met o rows = first (sort_by starts_first (filter (overlaps o) rows))

-- Two requests of which each looks before the other inserts.
abbrev pub both : Override → Override → Io Roster (Creation × Creation)
both a b = do
  x ← find_overlap a
  y ← find_overlap b
  c ← insert_unless a x
  d ← insert_unless b y
  pure (c, d)

last_two_meet :
    (a b : Override) (rows : List Override)
    → a.schedule_id ≡ b.schedule_id
    → meets a.start_at a.end_at b ≡ true
    → ¬ AreDisjoint (rows ++ (a ∷ b ∷ []))
last_two_meet a b [] same meet (pos, (apart, u), v) = elim (apart same) [
  | inl h ↦ ground arith
  | inr h ↦ ground arith
]
last_two_meet a b (row ∷ rows) same meet (pos, apart, rest) = last_two_meet a b rows same meet rest

stored : Override → ℕ → Roster → Override
stored o n s = record o { id = s.uuid n; created_at = s.clock }

both_created :
    (a b : Override) (s : Roster)
    → met a s.overrides ≡ none
    → met b s.overrides ≡ none
    → is_accepted a s ≡ true
    → is_accepted b s ≡ true
    → (both a b (calm s)).1.state.overrides
      ≡ (s.overrides ++ (stored a s.next_id s ∷ [])) ++ (stored b (suc s.next_id) s ∷ [])
unfolding find_overlap insert_override call pure ◌>>=◌ stored
both_created a b s ha hb ka kb = rw ha (rw hb (rw ka (rw kb refl)))

-- Two requests for overlapping windows of a schedule, neither of which meets a row that is there, both
-- insert where each looks before the other inserts, and the table then holds rows that overlap.
pub both_meet :
    (a b : Override) (s : Roster)
    → met a s.overrides ≡ none
    → met b s.overrides ≡ none
    → is_accepted a s ≡ true
    → is_accepted b s ≡ true
    → a.schedule_id ≡ b.schedule_id
    → meets a.start_at a.end_at b ≡ true
    → ¬ AreDisjoint (both a b (calm s)).1.state.overrides
unfolding stored
both_meet a b s ha hb ka kb same meet disjoint =
    let x = stored a s.next_id s in
    let y = stored b (suc s.next_id) s in
    last_two_meet x y s.overrides same meet (
      subst AreDisjoint
        (both_created a b s ha hb ka kb ∙ append_assoc s.overrides (x ∷ []) (y ∷ [])) disjoint)

-- ── Another tenant's row

unmet_filter :
    (o : Override) (rows : List Override) → met o rows ≡ none → filter (overlaps o) rows ≡ []
unmet_filter o [] h = refl
unmet_filter o (row ∷ rows) h = elim (Bool-cases (overlaps o row)) [
  | inl hit ↦
      absurd (insert_by-ne-none row (sort_by starts_first (filter (overlaps o) rows)) (rw hit at h))
  | inr miss ↦ rw miss (unmet_filter o rows (rw miss at h))
]

filter-append :
    (p : Override → Bool) (xs ys : List Override) → filter p (xs ++ ys) ≡ filter p xs ++ filter p ys
filter-append p [] ys = refl
filter-append p (x ∷ xs) ys = elim (Bool-cases (p x)) [
  | inl hit ↦ rw hit (ap (λ l. x ∷ l) (filter-append p xs ys))
  | inr miss ↦ rw miss (filter-append p xs ys)
]

met_last :
    (o row : Override) (rows : List Override)
    → met o rows ≡ none
    → overlaps o row ≡ true
    → met o (rows ++ (row ∷ [])) ≡ some row
met_last o row rows unmet hit =
    rw (filter-append (overlaps o) rows (row ∷ [])) (rw (unmet_filter o rows unmet) (rw hit refl))

last_left_out :
    (p : Override → Bool) (rows : List Override) (row : Override)
    → p row ≡ false
    → filter p (rows ++ (row ∷ [])) ≡ filter p rows
last_left_out p rows row miss =
    rw (filter-append p rows (row ∷ [])) (rw miss (append-nil (filter p rows)))

not_listed :
    (a b : Override)
    → str_eq a.tenant_id b.tenant_id ≡ false
    → of_schedule b.tenant_id b.schedule_id a ≡ false
not_listed a b h = ground arith

-- A request of a tenant for a schedule that belongs to another is stored as the other's would be: the
-- owner's list of overrides stays as it is, and the owner's own request for an overlapping window is refused,
-- with the user and the window of the stranger's row.
pub foreign_row_blocks :
    (a b : Override) (s : Roster)
    → met a s.overrides ≡ none
    → met b s.overrides ≡ none
    → is_accepted a s ≡ true
    → overlaps b a ≡ true
    → str_eq a.tenant_id b.tenant_id ≡ false
    → let t = (create_override a (calm s)).1.state in
      ((list_overrides b.tenant_id b.schedule_id (calm t)).0
        ≡ (list_overrides b.tenant_id b.schedule_id (calm s)).0)
      × (◌≡◌ {A = Result Err Creation}
          (create_override b (calm t)).0
          (ok (overlapping a.user_id a.start_at a.end_at)))
unfolding create_override find_overlap insert_override list_overrides call pure ◌>>=◌ stored
foreign_row_blocks a b s ha hb ka meet stranger =
    let row = stored a s.next_id s in
    rw ha (
      rw ka (
        ap (λ l. ok (sort_by starts_first l))
            (last_left_out (of_schedule b.tenant_id b.schedule_id) s.overrides row
              (not_listed a b stranger)),
        rw (met_last b row s.overrides hb meet) refl,
      ))
