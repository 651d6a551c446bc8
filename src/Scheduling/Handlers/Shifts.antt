-- ===== src/Scheduling/Handlers/Shifts.antt =====
-- Schedules, on-call, overrides and shifts in services/scheduling/internal/handler/handler.go. A
-- request is its decoded parts: a body that is not of the right form is `none`.
use sreon_call.Prelude.{
  ℕ, ◌+◌, String, str_eq, List, [], ◌∷◌, ◌++◌, Bool, true, false, ◌||◌, Option, none, some, ltb,
  if◌then◌else◌, Result, ok, err, length, ◌==◌,
}
use sreon_call.Effects.{Err, Io, try, gets, ◌>>=◌}
use sreon_call.Effects.Http.{Reply, write_error, write_json, no_body, or_internal_error, or_missing}
use sreon_call.Scheduling.Duration.{DurationError, parse_iso8601_duration, second}
use sreon_call.Scheduling.Rotation.{Schedule, Override, Shift, RotationError, on_call_at}
use sreon_call.Scheduling.Generate.{generate_shifts}
use sreon_call.Scheduling.Roster.{Roster}
use sreon_call.Scheduling.Roster.Schedules.{
  Creation, created, overlapping, get_schedule, list_overrides_in_window,
}
use sreon_call.Scheduling.Roster.Schedules
use sreon_call.Scheduling.Roster.Tenants.{get_user_by_sub}
use sreon_call.Scheduling.Handlers.{
  Payload, schedule, schedules, oncall, override_made, overrides, shifts, missing_fields,
  existing_override, invalid_duration, no_rotation, Library,
}

abbrev pub Answer : Type 0
Answer = Io Roster (Reply Payload)

-- The names of the fields that are missing.
abbrev pub missing_if : Bool → String → List String
missing_if true name = name ∷ []
missing_if false name = []

abbrev pub unless_any : List String → Answer → Answer
unless_any [] next = next
unless_any (m ∷ ms) next = write_json 422 (missing_fields (m ∷ ms))

abbrev pub or_invalid : {A : Type 0} → Answer → Option A → (A → Answer) → Answer
or_invalid bad none next = bad
or_invalid bad (some a) next = next a

-- ── Schedules

pub record ScheduleBody : Type 0 where
  pub name : String
  pub timezone : String
  pub rotation : List String
  pub shift_duration : List ℕ
  pub start_date : String

-- The fields that are there.
pub record SchedulePatch : Type 0 where
  pub name : Option String
  pub timezone : Option String
  pub rotation : Option (List String)
  pub shift_duration : Option (List ℕ)
  pub start_date : Option String

abbrev pub or_kept : {A : Type 0} → Option A → A → A
or_kept none old = old
or_kept (some new) old = new

unfoldable pub list_schedules : String → Answer
list_schedules tenant = do
  r ← try (Schedules.list_schedules tenant)
  or_internal_error r λ found. write_json 200 (schedules found)

-- A duration that parses, or the answer to one that does not.
abbrev pub if_parsed :
    {A : Type 0} → Result DurationError A → (DurationError → Answer) → Answer → Answer
if_parsed (ok _) bad next = next
if_parsed (err x) bad next = bad x

module _ (lib : Library) where
  abbrev pub new_schedule : String → ScheduleBody → ℕ → Schedule
  new_schedule tenant b start_date = record {
    id = "";
    tenant_id = tenant;
    name = b.name;
    timezone = if str_eq b.timezone "" then "UTC" else b.timezone;
    rotation = b.rotation;
    shift_duration = b.shift_duration;
    start_date = start_date;
    created_at = 0;
    updated_at = 0;
  }

  abbrev pub missing_of : ScheduleBody → List String
  missing_of b =
      missing_if (length b.rotation == 0) "rotation"
      ++ (missing_if (length b.shift_duration == 0) "shift_duration"
          ++ (missing_if (str_eq b.start_date "") "start_date"
              ++ missing_if (str_eq b.name "") "name"))

  unfoldable pub create_schedule : String → Option ScheduleBody → Answer
  create_schedule tenant none = write_error 400 "invalid JSON"
  create_schedule tenant (some b) = unless_any (missing_of b) (
      if_parsed (parse_iso8601_duration b.shift_duration) (λ x. write_json 422 (invalid_duration x))
        (or_invalid (write_error 422 "invalid start_date, expected YYYY-MM-DD")
          (lib.parse_date b.start_date)
          λ start_date. do
            r ← try (Schedules.create_schedule (new_schedule tenant b start_date))
            or_internal_error r λ sched. write_json 201 (schedule sched)))

  unfoldable pub write_patched : Schedule → Answer
  write_patched sched = do
    r ← try (Schedules.update_schedule sched)
    or_internal_error r λ _. write_json 200 (schedule sched)

  abbrev pub with_start_date : Option String → Schedule → Answer
  with_start_date none sched = write_patched sched
  with_start_date (some given) sched =
      or_invalid (write_error 422 "invalid start_date") (lib.parse_date given)
        λ start_date. write_patched (record sched { start_date = start_date })

  abbrev pub with_duration : Option (List ℕ) → Option String → Schedule → Answer
  with_duration none start_date sched = with_start_date start_date sched
  with_duration (some given) start_date sched =
      if_parsed (parse_iso8601_duration given) (λ _. write_error 422 "invalid shift_duration")
        (with_start_date start_date (record sched { shift_duration = given }))

  abbrev pub patch_read : Option SchedulePatch → Schedule → Answer
  patch_read none sched = write_error 400 "invalid JSON"
  patch_read (some p) sched = with_duration p.shift_duration p.start_date (record sched {
    name = or_kept p.name sched.name;
    timezone = or_kept p.timezone sched.timezone;
    rotation = or_kept p.rotation sched.rotation;
  })

  unfoldable pub patch_schedule : String → String → Option SchedulePatch → Answer
  patch_schedule tenant id body = do
    r ← try (get_schedule tenant id)
    or_missing "not found" r λ sched. patch_read body sched

unfoldable pub get_one_schedule : String → String → Answer
get_one_schedule tenant id = do
  r ← try (get_schedule tenant id)
  or_missing "not found" r λ sched. write_json 200 (schedule sched)

unfoldable pub delete_schedule : String → String → Answer
delete_schedule tenant id = do
  r ← try (Schedules.delete_schedule tenant id)
  or_missing "not found" r λ _. no_body

-- ── On-call

abbrev pub name_or_empty : Result Err String → String
name_or_empty (ok name) = name
name_or_empty (err _) = ""

unfoldable pub answer_on_call : Result RotationError (String × ℕ × ℕ) → Answer
answer_on_call (err x) = write_json 500 (no_rotation x)
answer_on_call (ok (user_id, starts_at, ends_at)) = do
  name ← try (get_user_by_sub user_id)
  write_json 200 (
      oncall (record {
        user_id = user_id;
        username = name_or_empty name;
        starts_at = starts_at;
        ends_at = ends_at;
      }))

module _ (lib : Library) where
  -- Past the reading of `?at`.
  unfoldable pub on_call_read : String → String → ℕ → Answer
  on_call_read tenant id at = do
    r ← try (get_schedule tenant id)
    or_missing "not found" r λ sched. do
      o ← try (list_overrides_in_window tenant id at (at + second))
      or_internal_error o λ found. answer_on_call (on_call_at lib.time sched found at)

  unfoldable pub get_on_call : String → String → String → Answer
  get_on_call tenant id at =
      if str_eq at ""
      then (do now ← gets (λ s. s.clock); on_call_read tenant id now)
      else or_invalid (write_error 400 "invalid ?at, expected RFC3339") (lib.parse_rfc3339 at)
          λ t. on_call_read tenant id t

  -- ── Shifts

  abbrev pub answer_shifts : Result RotationError (List Shift) → Answer
  answer_shifts (ok l) = write_json 200 (shifts l)
  answer_shifts (err x) = write_json 500 (no_rotation x)

  -- Past the reading of the window.
  unfoldable pub shifts_read : String → String → ℕ → ℕ → Answer
  shifts_read tenant id from to = do
    r ← try (get_schedule tenant id)
    or_missing "not found" r λ sched. do
      o ← try (list_overrides_in_window tenant id from to)
      or_internal_error o λ found. answer_shifts (generate_shifts lib.time sched found from to)

  unfoldable pub list_shifts : String → String → String → String → Answer
  list_shifts tenant id from_text to_text =
      if str_eq from_text "" || str_eq to_text ""
      then write_error 400 "from and to query params required"
      else or_invalid (write_error 400 "invalid ?from, expected RFC3339")
          (lib.parse_rfc3339 from_text)
          λ from.
            or_invalid (write_error 400 "invalid ?to, expected RFC3339") (lib.parse_rfc3339 to_text)
              λ to.
                if ltb from to
                then shifts_read tenant id from to
                else write_error 400 "to must be after from"

-- ── Overrides

pub record OverrideBody : Type 0 where
  pub user_id : String
  pub start_at : String
  pub end_at : String

unfoldable pub list_overrides : String → String → Answer
list_overrides tenant id = do
  r ← try (Schedules.list_overrides tenant id)
  or_internal_error r λ found. write_json 200 (overrides found)

abbrev pub answer_creation : Creation → Answer
answer_creation (created o) = write_json 201 (override_made o)
answer_creation (overlapping user start_at end_at) =
    write_json 409 (existing_override user start_at end_at)

abbrev pub new_override : String → String → String → ℕ → ℕ → Override
new_override tenant id user_id start_at end_at = record {
  id = "";
  schedule_id = id;
  tenant_id = tenant;
  user_id = user_id;
  start_at = start_at;
  end_at = end_at;
  created_at = 0;
}

-- Past the reading of the body.
unfoldable pub write_override : Override → Answer
write_override o =
    if ltb o.start_at o.end_at
    then (do r ← try (Schedules.create_override o); or_internal_error r λ c. answer_creation c)
    else write_error 422 "end_at must be after start_at"

module _ (lib : Library) where
  abbrev pub missing_parts : OverrideBody → List String
  missing_parts b =
      missing_if (str_eq b.user_id "") "user_id"
      ++ (missing_if (str_eq b.start_at "") "start_at" ++ missing_if (str_eq b.end_at "") "end_at")

  unfoldable pub create_override : String → String → Option OverrideBody → Answer
  create_override tenant id none = write_error 400 "invalid JSON"
  create_override tenant id (some b) = unless_any (missing_parts b) (
      or_invalid (write_error 422 "invalid start_at, expected RFC3339")
        (lib.parse_rfc3339 b.start_at)
        λ start_at.
          or_invalid (write_error 422 "invalid end_at, expected RFC3339")
            (lib.parse_rfc3339 b.end_at)
            λ end_at. write_override (new_override tenant id b.user_id start_at end_at))

unfoldable pub delete_override : String → String → Answer
delete_override tenant id = do
  r ← try (Schedules.delete_override tenant id)
  or_missing "not found" r λ _. no_body
