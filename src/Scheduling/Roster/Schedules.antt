-- ===== src/Scheduling/Roster/Schedules.antt =====
-- Schedules and overrides in services/scheduling/internal/store/store.go. Start dates are whole days,
-- as `time.Parse` of a date and the column DATE give them.
pub mod Apart
pub mod OnCallAt
pub mod Conflicts
use sreon_call.Prelude.{
  ℕ, suc, String, str_eq, List, [], ◌∷◌, ◌++◌, Bool, true, false, not, ◌&&◌, Option, none, some,
  ltb, leb, if◌then◌else◌, Result, ok, err, filter, any, find, sort_by, update_where,
}
use sreon_call.Effects.{Err, not_found, failed, Io, call, pure, ◌>>=◌}
use sreon_call.Scheduling.Rotation.{Schedule, Override}
use sreon_call.Scheduling.Roster.{Roster}

-- `pgx.ErrNoRows` is reported as `ErrNotFound`.
abbrev pub found : {A : Type 0} → Option A → Result Err A
found none = err not_found
found (some a) = ok a

-- `RowsAffected() == 0` too.
abbrev pub affected : Bool → Result Err (Unit {0})
affected true = ok tt
affected false = err not_found

-- ── Schedules

unfoldable pub create_schedule : Schedule → Io Roster Schedule
create_schedule sched = call λ s.
    let row = record sched { id = s.uuid s.next_id; created_at = s.clock; updated_at = s.clock } in
    (ok row, record s { schedules = s.schedules ++ (row ∷ []); next_id = suc s.next_id })

abbrev pub owned_schedule : String → String → Schedule → Bool
owned_schedule tenant_id id sched = str_eq sched.id id && str_eq sched.tenant_id tenant_id

unfoldable pub get_schedule : String → String → Io Roster Schedule
get_schedule tenant_id id = call λ s. (found (find (owned_schedule tenant_id id) s.schedules), s)

unfoldable pub list_schedules : String → Io Roster (List Schedule)
list_schedules tenant_id = call λ s. (
  ok (
      sort_by (λ a b. leb a.created_at b.created_at)
        (filter (λ sched. str_eq sched.tenant_id tenant_id) s.schedules)),
  s,
)

abbrev pub with_fields : Schedule → ℕ → Schedule → Schedule
with_fields sched now row = record row {
  name = sched.name;
  timezone = sched.timezone;
  rotation = sched.rotation;
  shift_duration = sched.shift_duration;
  start_date = sched.start_date;
  updated_at = now;
}

unfoldable pub update_schedule : Schedule → Io Roster (Unit {0})
update_schedule sched = call λ s.
    let mine = owned_schedule sched.tenant_id sched.id in
    (
      affected (any mine s.schedules),
      record s { schedules = update_where mine (with_fields sched s.clock) s.schedules },
    )

-- ON DELETE CASCADE takes the overrides away.
abbrev pub drop_schedule : String → String → Roster → Roster
drop_schedule tenant_id id s = record s {
  schedules = filter (λ sched. not (owned_schedule tenant_id id sched)) s.schedules;
  overrides = filter (λ o. not (str_eq o.schedule_id id)) s.overrides;
}

unfoldable pub delete_schedule : String → String → Io Roster (Unit {0})
delete_schedule tenant_id id = call λ s.
    if any (owned_schedule tenant_id id) s.schedules
    then (ok tt, drop_schedule tenant_id id s)
    else (err not_found, s)

-- ── Overrides

abbrev pub starts_first : Override → Override → Bool
starts_first a b = leb a.start_at b.start_at

abbrev pub of_schedule : String → String → Override → Bool
of_schedule tenant_id schedule_id o =
    str_eq o.schedule_id schedule_id && str_eq o.tenant_id tenant_id

abbrev pub meets : ℕ → ℕ → Override → Bool
meets from to o = ltb o.start_at to && ltb from o.end_at

unfoldable pub list_overrides : String → String → Io Roster (List Override)
list_overrides tenant_id schedule_id =
    call
      λ s. (ok (sort_by starts_first (filter (of_schedule tenant_id schedule_id) s.overrides)), s)

abbrev pub in_window : String → String → ℕ → ℕ → Override → Bool
in_window tenant_id schedule_id from to o = of_schedule tenant_id schedule_id o && meets from to o

abbrev pub window_rows : String → String → ℕ → ℕ → List Override → List Override
window_rows tenant_id schedule_id from to rows =
    sort_by starts_first (filter (in_window tenant_id schedule_id from to) rows)

unfoldable pub list_overrides_in_window : String → String → ℕ → ℕ → Io Roster (List Override)
list_overrides_in_window tenant_id schedule_id from to =
    call λ s. (ok (window_rows tenant_id schedule_id from to s.overrides), s)

-- What the check for overlaps looks for; it does not ask for the tenant.
abbrev pub overlaps : Override → Override → Bool
overlaps o row = str_eq row.schedule_id o.schedule_id && meets o.start_at o.end_at row

abbrev pub first : {A : Type 0} → List A → Option A
first [] = none
first (a ∷ rest) = some a

unfoldable pub find_overlap : Override → Io Roster (Option Override)
find_overlap o = call λ s. (ok (first (sort_by starts_first (filter (overlaps o) s.overrides))), s)

-- The foreign key and `override_window_valid`.
abbrev pub is_accepted : Override → Roster → Bool
is_accepted o s =
    any (λ sched. str_eq sched.id o.schedule_id) s.schedules && ltb o.start_at o.end_at

unfoldable pub insert_override : Override → Io Roster Override
insert_override o = call λ s.
    let row = record o { id = s.uuid s.next_id; created_at = s.clock } in
    if is_accepted o s
    then (ok row, record s { overrides = s.overrides ++ (row ∷ []); next_id = suc s.next_id })
    else (err failed, s)

-- `OverrideConflictError` is an answer of its own: the user, the start and the end of a row.
pub data Creation : Type 0 where
  created : Override → Creation
  overlapping : String → ℕ → ℕ → Creation

abbrev pub insert_unless : Override → Option Override → Io Roster Creation
insert_unless o none = do row ← insert_override o; pure (created row)
insert_unless o (some row) = pure (overlapping row.user_id row.start_at row.end_at)

unfoldable pub create_override : Override → Io Roster Creation
create_override o = do row ← find_overlap o; insert_unless o row

unfoldable pub delete_override : String → String → Io Roster (Unit {0})
delete_override tenant_id id = call λ s.
    let mine = λ (o : Override). str_eq o.id id && str_eq o.tenant_id tenant_id in
    (
      affected (any mine s.overrides),
      record s { overrides = filter (λ o. not (mine o)) s.overrides },
    )
