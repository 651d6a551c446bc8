-- ===== src/Scheduling/Handlers/Kept.antt =====
-- Every request to the scheduling service (services/scheduling/internal/handler/handler.go) keeps the
-- overrides of a schedule apart and the durations parsed.
use sreon_call.Prelude.{
  ℕ, ◌≡◌, refl, inl, inr, ◌⊎◌, String, List, [], ◌∷◌, Option, none, some, Result, ok, err, find,
  find-All,
}
use sreon_call.Effects.{Err, failed, Env, call}
use sreon_call.Effects.Evolves.{
  Evolves, Evolves-call, Evolves-bind, Evolves-try, Evolves-read, evolves_rules,
}
use sreon_call.Effects.Http.{or_missing}
use sreon_call.Effects.Http.Rules.{
  http_rules, Evolves-or_missing_error, Evolves-or_internal_error, Evolves-reply,
}
use sreon_call.Scheduling.Duration.{DurationError, parse_iso8601_duration}
use sreon_call.Scheduling.Rotation.{Schedule, Override, Shift, RotationError}
use sreon_call.Scheduling.Roster.{Roster}
use sreon_call.Scheduling.Roster.Schedules
use sreon_call.Scheduling.Roster.Schedules.{
  Creation, created, overlapping, owned_schedule, found, get_schedule, list_overrides_in_window,
}
use sreon_call.Scheduling.Roster.Tenants
use sreon_call.Scheduling.Handlers.{Library}
use sreon_call.Scheduling.Handlers.Shifts.{
  Answer, ScheduleBody, SchedulePatch, OverrideBody, unless_any, or_invalid, if_parsed,
  list_schedules, create_schedule, missing_of, new_schedule, write_patched, with_start_date,
  with_duration, patch_read, patch_schedule, get_one_schedule, delete_schedule, answer_on_call,
  on_call_read, get_on_call, shifts_read, answer_shifts, list_shifts, list_overrides,
  write_override, answer_creation, create_override, delete_override, missing_parts,
}
use sreon_call.Scheduling.Handlers.Sound.{
  IsParsed, Keeps, Keeps-Preorder, create_schedule-Keeps, update_schedule-Keeps,
  delete_schedule-Keeps, delete_override-Keeps, create_override-Keeps,
}

abbrev pub IsKept : Answer → Type 0
IsKept = Evolves Keeps

-- ── The parts of a handler

pub reading : {A : Type 0} (g : Roster → Result Err A) → Evolves Keeps (call (λ s. (g s, s)))
reading g = Evolves-call Keeps-Preorder _ (λ s h. h)

pub unless_any-IsKept :
    (missing : List String) (next : Answer) → IsKept next → IsKept (unless_any missing next)
unless_any-IsKept [] next h = h
unless_any-IsKept (m ∷ ms) next h = search (http_rules, Keeps-Preorder)

pub or_invalid-IsKept :
    {A : Type 0} (bad : Answer) (given : Option A) (next : A → Answer)
    → IsKept bad
    → ((a : A) → IsKept (next a))
    → IsKept (or_invalid bad given next)
or_invalid-IsKept bad none next hb hn = hb
or_invalid-IsKept bad (some a) next hb hn = hn a

pub if_parsed-IsKept :
    {A : Type 0} (r : Result DurationError A) (bad : DurationError → Answer) (next : Answer)
    → ((x : DurationError) → IsKept (bad x))
    → ((a : A) → r ≡ ok a → IsKept next)
    → IsKept (if_parsed r bad next)
if_parsed-IsKept (ok a) bad next hb hn = hn a refl
if_parsed-IsKept (err x) bad next hb hn = hb x

-- ── Schedules

pub list_schedules-IsKept : (tenant : String) → IsKept (list_schedules tenant)
unfolding list_schedules Schedules.list_schedules
list_schedules-IsKept tenant = search (evolves_rules, http_rules, Keeps-Preorder, reading)

pub get_schedule-IsKept : (tenant id : String) → Evolves Keeps (get_schedule tenant id)
unfolding get_schedule
get_schedule-IsKept tenant id = reading _

pub in_window-IsKept :
    (tenant id : String) (from to : ℕ) → Evolves Keeps (list_overrides_in_window tenant id from to)
unfolding list_overrides_in_window
in_window-IsKept tenant id from to = reading _

pub get_one_schedule-IsKept : (tenant id : String) → IsKept (get_one_schedule tenant id)
unfolding get_one_schedule
get_one_schedule-IsKept tenant id =
    search (evolves_rules, http_rules, Keeps-Preorder, get_schedule-IsKept)

pub delete_schedule-IsKept : (tenant id : String) → IsKept (delete_schedule tenant id)
unfolding delete_schedule
delete_schedule-IsKept tenant id =
    search (evolves_rules, http_rules, Keeps-Preorder, delete_schedule-Keeps)

pub create_schedule-IsKept :
    (lib : Library) (tenant : String) (body : Option ScheduleBody)
    → IsKept (create_schedule lib tenant body)
unfolding create_schedule
create_schedule-IsKept lib tenant none = search (http_rules, Keeps-Preorder)
create_schedule-IsKept lib tenant (some b) = unless_any-IsKept (missing_of lib b) _ (
    if_parsed-IsKept (parse_iso8601_duration b.shift_duration) _ _
      (λ x. Evolves-reply Keeps-Preorder _ _)
      λ d parsed.
        or_invalid-IsKept _ (lib.parse_date b.start_date) _ (Evolves-reply Keeps-Preorder _ _)
          λ start_date.
            Evolves-bind Keeps-Preorder _ _
              (Evolves-try Keeps-Preorder _
                (create_schedule-Keeps (new_schedule lib tenant b start_date) (d, parsed)))
              λ r.
                Evolves-or_internal_error Keeps-Preorder r _
                  λ sched. Evolves-reply Keeps-Preorder _ _)

-- ── PATCH

module _ (lib : Library) where
  pub write_patched-IsKept : (sched : Schedule) → IsParsed sched → IsKept (write_patched lib sched)
  unfolding write_patched
  write_patched-IsKept sched parsed =
      Evolves-bind Keeps-Preorder _ _
        (Evolves-try Keeps-Preorder _ (update_schedule-Keeps sched parsed))
        λ r. Evolves-or_internal_error Keeps-Preorder r _ λ u. Evolves-reply Keeps-Preorder _ _

  pub with_start_date-IsKept :
      (start_date : Option String) (sched : Schedule)
      → IsParsed sched
      → IsKept (with_start_date lib start_date sched)
  with_start_date-IsKept none sched parsed = write_patched-IsKept sched parsed
  with_start_date-IsKept (some given) sched parsed =
      or_invalid-IsKept _ (lib.parse_date given) _ (Evolves-reply Keeps-Preorder _ _)
        λ start_date. write_patched-IsKept _ parsed

  pub with_duration-IsKept :
      (duration : Option (List ℕ)) (start_date : Option String) (sched : Schedule)
      → IsParsed sched
      → IsKept (with_duration lib duration start_date sched)
  with_duration-IsKept none start_date sched parsed = with_start_date-IsKept start_date sched parsed
  with_duration-IsKept (some given) start_date sched parsed =
      if_parsed-IsKept (parse_iso8601_duration given) _ _ (λ x. Evolves-reply Keeps-Preorder _ _)
        λ d e. with_start_date-IsKept start_date _ (d, e)

  pub patch_read-IsKept :
      (body : Option SchedulePatch) (sched : Schedule)
      → IsParsed sched
      → IsKept (patch_read lib body sched)
  patch_read-IsKept none sched parsed = Evolves-reply Keeps-Preorder _ _
  patch_read-IsKept (some p) sched parsed =
      with_duration-IsKept p.shift_duration p.start_date _ parsed

found-some : {A : Type 0} (o : Option A) (a : A) → ok a ≡ found o → o ≡ some a
found-some none a h = cc
found-some (some b) a h = cc

patch_found-Keeps :
    (lib : Library) (tenant id : String) (body : Option SchedulePatch) (e : Env Roster)
    (r : Result Err Schedule)
    → (r ≡ err failed) ⊎ (r ≡ found (find (owned_schedule tenant id) e.state.schedules))
    → Keeps e.state (or_missing "not found" r (patch_read lib body) e).1.state
patch_found-Keeps lib tenant id body e (err x) h =
    (Evolves-or_missing_error Keeps-Preorder "not found" x (patch_read lib body)).at e
patch_found-Keeps lib tenant id body e (ok sched) (inl h) = λ k. cc
patch_found-Keeps lib tenant id body e (ok sched) (inr h) = λ k.
    (patch_read-IsKept lib body sched (
        find-All IsParsed (owned_schedule tenant id) e.state.schedules sched k.1
          (found-some _ sched h))).at
      e k

pub patch_schedule-IsKept :
    (lib : Library) (tenant id : String) (body : Option SchedulePatch)
    → IsKept (patch_schedule lib tenant id body)
unfolding patch_schedule get_schedule
patch_schedule-IsKept lib tenant id body =
    Evolves-read Keeps-Preorder _ _ (patch_found-Keeps lib tenant id body)

-- ── On-call, overrides and shifts

pub answer_on_call-IsKept : (r : Result RotationError (String × ℕ × ℕ)) → IsKept (answer_on_call r)
unfolding answer_on_call Tenants.get_user_by_sub
answer_on_call-IsKept (err x) = Evolves-reply Keeps-Preorder _ _
answer_on_call-IsKept (ok (user, from, to)) =
    search (evolves_rules, http_rules, Keeps-Preorder, reading)

module _ (lib : Library) where
  pub on_call_read-IsKept : (tenant id : String) (at : ℕ) → IsKept (on_call_read lib tenant id at)
  unfolding on_call_read
  on_call_read-IsKept tenant id at = search (
    evolves_rules, http_rules, Keeps-Preorder, get_schedule-IsKept, in_window-IsKept,
    answer_on_call-IsKept,
  )

  pub get_on_call-IsKept : (tenant id at : String) → IsKept (get_on_call lib tenant id at)
  unfolding get_on_call
  get_on_call-IsKept tenant id at =
      search (evolves_rules, http_rules, Keeps-Preorder, on_call_read-IsKept, or_invalid-IsKept)

  pub answer_shifts-IsKept : (r : Result RotationError (List Shift)) → IsKept (answer_shifts lib r)
  answer_shifts-IsKept (ok l) = Evolves-reply Keeps-Preorder _ _
  answer_shifts-IsKept (err x) = Evolves-reply Keeps-Preorder _ _

  pub shifts_read-IsKept :
      (tenant id : String) (from to : ℕ) → IsKept (shifts_read lib tenant id from to)
  unfolding shifts_read
  shifts_read-IsKept tenant id from to = search (
    evolves_rules, http_rules, Keeps-Preorder, get_schedule-IsKept, in_window-IsKept,
    answer_shifts-IsKept,
  )

  pub list_shifts-IsKept : (tenant id from to : String) → IsKept (list_shifts lib tenant id from to)
  unfolding list_shifts
  list_shifts-IsKept tenant id from to =
      search (evolves_rules, http_rules, Keeps-Preorder, shifts_read-IsKept, or_invalid-IsKept)
        depth 9

pub list_overrides-IsKept : (tenant id : String) → IsKept (list_overrides tenant id)
unfolding list_overrides Schedules.list_overrides
list_overrides-IsKept tenant id = search (evolves_rules, http_rules, Keeps-Preorder, reading)

pub answer_creation-IsKept : (c : Creation) → IsKept (answer_creation c)
answer_creation-IsKept (created o) = Evolves-reply Keeps-Preorder _ _
answer_creation-IsKept (overlapping u a b) = Evolves-reply Keeps-Preorder _ _

pub write_override-IsKept : (o : Override) → IsKept (write_override o)
unfolding write_override
write_override-IsKept o =
    search
      (evolves_rules, http_rules, Keeps-Preorder, create_override-Keeps, answer_creation-IsKept)

pub create_override-IsKept :
    (lib : Library) (tenant id : String) (body : Option OverrideBody)
    → IsKept (create_override lib tenant id body)
unfolding create_override
create_override-IsKept lib tenant id none = Evolves-reply Keeps-Preorder _ _
create_override-IsKept lib tenant id (some b) =
    unless_any-IsKept (missing_parts lib b) _
      (search (evolves_rules, http_rules, Keeps-Preorder, or_invalid-IsKept, write_override-IsKept))

pub delete_override-IsKept : (tenant id : String) → IsKept (delete_override tenant id)
unfolding delete_override
delete_override-IsKept tenant id =
    search (evolves_rules, http_rules, Keeps-Preorder, delete_override-Keeps)
