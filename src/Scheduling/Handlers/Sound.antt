-- ===== src/Scheduling/Handlers/Sound.antt =====
-- What every request to the scheduling service keeps.
use sreon_call.Prelude.{
  ℕ, ◌<◌, ◌≡◌, refl, inl, inr, String, List, [], ◌∷◌, Bool, true, false, Option, none, some,
  if◌then◌else◌, Bool-cases, All, All-filter, All-append, Result, ok, arith, filter, update_where,
  any, sort_by,
}
use sreon_call.Effects.{Err, Env, pure, ◌>>=◌}
use sreon_call.Effects.Evolves.{
  Evolves, Preorder, Evolves-call, Evolves-pure, Evolves-read_value, call_at, bind_at,
}
use sreon_call.Scheduling.Duration.{parse_iso8601_duration}
use sreon_call.Scheduling.Rotation.{Schedule, Override}
use sreon_call.Scheduling.Roster.{Roster}
use sreon_call.Scheduling.Roster.Schedules.{
  first, starts_first, overlaps, owned_schedule, with_fields, insert_unless, find_overlap,
  insert_override, is_accepted, found,
}
use sreon_call.Scheduling.Roster.Schedules
use sreon_call.Scheduling.Roster.Schedules.Apart.{
  AreDisjoint, filter-AreDisjoint, added-AreDisjoint,
}

-- A shift duration that `ParseISO8601Duration` takes.
abbrev pub IsParsed : Schedule → Type 0
IsParsed sched = (d : ℕ) × (parse_iso8601_duration sched.shift_duration ≡ ok d)

-- The overrides of each schedule do not overlap, and each schedule's duration parses.
abbrev pub IsSound : Roster → Type 0
IsSound s = AreDisjoint s.overrides × All IsParsed s.schedules

abbrev pub Keeps : Roster → Roster → Type 0
Keeps s t = IsSound s → IsSound t

pub Keeps-Preorder : Preorder Keeps
Keeps-Preorder = record { same = λ s h. h; chain = λ s t u f g h. g (f h) }

-- ── The store

pub either :
    {A : Type 0} (b : Bool) (x y : Result Err A × Roster)
    → IsSound x.1
    → IsSound y.1
    → IsSound (if b then x else y).1
either true x y hx hy = hx
either false x y hx hy = hy

pub create_schedule-Keeps :
    (sched : Schedule) → IsParsed sched → Evolves Keeps (Schedules.create_schedule sched)
unfolding Schedules.create_schedule
create_schedule-Keeps sched parsed =
    Evolves-call Keeps-Preorder _
      (λ s (apart, all). (apart, All-append IsParsed s.schedules (_ ∷ []) all (parsed, tt)))

All-update_where :
    (P : Schedule → Type 0) (p : Schedule → Bool) (f : Schedule → Schedule) (rows : List Schedule)
    → ((row : Schedule) → P (f row))
    → All P rows
    → All P (update_where p f rows)
All-update_where P p f [] k h = tt
All-update_where P p f (row ∷ rows) k h = elim (Bool-cases (p row)) [
  | inl hit ↦ rw hit (k row, All-update_where P p f rows k h.1)
  | inr miss ↦ rw miss (h.0, All-update_where P p f rows k h.1)
]

pub update_schedule-Keeps :
    (sched : Schedule) → IsParsed sched → Evolves Keeps (Schedules.update_schedule sched)
unfolding Schedules.update_schedule
update_schedule-Keeps sched parsed = Evolves-call Keeps-Preorder _ (λ s (apart, all). (
  apart,
  All-update_where IsParsed (owned_schedule sched.tenant_id sched.id) (with_fields sched s.clock)
      s.schedules (λ row. parsed) all,
))

pub delete_schedule-Keeps :
    (tenant_id id : String) → Evolves Keeps (Schedules.delete_schedule tenant_id id)
unfolding Schedules.delete_schedule
delete_schedule-Keeps tenant_id id = Evolves-call Keeps-Preorder _ (λ s (apart, all).
    either (any (owned_schedule tenant_id id) s.schedules) _ _
      (filter-AreDisjoint _ s.overrides apart, All-filter IsParsed _ s.schedules all) (apart, all))

pub delete_override-Keeps :
    (tenant_id id : String) → Evolves Keeps (Schedules.delete_override tenant_id id)
unfolding Schedules.delete_override
delete_override-Keeps tenant_id id =
    Evolves-call Keeps-Preorder _ (λ s (apart, all). (filter-AreDisjoint _ s.overrides apart, all))

accepted_pos : (o : Override) (s : Roster) → is_accepted o s ≡ true → o.start_at < o.end_at
accepted_pos o s h = ground arith

-- A row that met none when it was looked for is inserted.
insert_override-Keeps :
    (o : Override) (e : Env Roster)
    → first (sort_by starts_first (filter (overlaps o) e.state.overrides)) ≡ none
    → Keeps e.state (insert_override o e).1.state
unfolding insert_override
insert_override-Keeps o e unmet = call_at Keeps-Preorder _ e (λ (apart, all).
    elim (Bool-cases (is_accepted o e.state)) [
      | inl hit ↦ rw hit (
        added-AreDisjoint
            (record o { id = e.state.uuid e.state.next_id; created_at = e.state.clock })
            e.state.overrides apart (accepted_pos o e.state hit) unmet,
        all,
      )
      | inr miss ↦ rw miss (apart, all)
    ])

insert_unless-Keeps :
    (o : Override) (r : Option Override) (e : Env Roster)
    → first (sort_by starts_first (filter (overlaps o) e.state.overrides)) ≡ r
    → Keeps e.state (insert_unless o r e).1.state
unfolding pure ◌>>=◌
insert_unless-Keeps o (some row) e h = λ k. k
insert_unless-Keeps o none e h =
    bind_at Keeps-Preorder (insert_override o) _ e (insert_override-Keeps o e h)
      (λ row. Evolves-pure Keeps-Preorder _)

pub create_override-Keeps : (o : Override) → Evolves Keeps (Schedules.create_override o)
unfolding Schedules.create_override find_overlap
create_override-Keeps o =
    Evolves-read_value Keeps-Preorder _ (insert_unless o) (λ e. insert_unless-Keeps o _ e refl)
