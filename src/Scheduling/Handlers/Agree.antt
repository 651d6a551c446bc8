-- ===== src/Scheduling/Handlers/Agree.antt =====
-- The answers about shifts and the answers about who is on call
-- (services/scheduling/internal/handler/handler.go).
use sreon_call.Prelude.{
  ℕ, ◌+◌, ◌≤◌, ◌<◌, ◌≡◌, refl, sym, subst, ◌∙◌, String, List, [], Bool, some, All, Any, arith,
  length, Result, ok, find, find-All,
}
use sreon_call.Effects.{calm, Err, call, try, pure, ◌>>=◌}
use sreon_call.Effects.Http.{Reply, json}
use sreon_call.Scheduling.Duration.{second, max_duration}
use sreon_call.Scheduling.Rotation.{Schedule, Shift, epoch, shift_duration_of, on_call_at}
use sreon_call.Scheduling.Rotation.Shifts.{Covers}
use sreon_call.Scheduling.Generate.{generate_shifts}
use sreon_call.Scheduling.Generate.Agree.{generate_shifts_agree}
use sreon_call.Scheduling.Roster.{Roster}
use sreon_call.Scheduling.Roster.Schedules.{
  owned_schedule, window_rows, get_schedule, list_overrides_in_window,
}
use sreon_call.Scheduling.Roster.Schedules.Apart.{window_rows-AreApart}
use sreon_call.Scheduling.Roster.Schedules.OnCallAt.{same_on_call}
use sreon_call.Scheduling.Roster.Tenants.{get_user_by_sub, username_or, of_sub}
use sreon_call.Scheduling.Handlers.{Oncall, Payload, oncall, shifts, Library}
use sreon_call.Scheduling.Handlers.Shifts.{shifts_read, on_call_read, answer_on_call}
use sreon_call.Scheduling.Handlers.Requests.{Reach}
use sreon_call.Scheduling.Handlers.Sound.{IsParsed}
use sreon_call.Scheduling.Handlers.Reachable.{Reach-IsSound}

abbrev pub AnswersShifts : Library → Roster → String → String → ℕ → ℕ → List Shift → Type 0
AnswersShifts lib s tenant id from to l =
    ◌≡◌ {A = Result Err (Reply Payload)} (shifts_read lib tenant id from to (calm s)).0
      (ok (record { code = 200; body = json (shifts l) }))

abbrev pub AnswersOncall : Library → Roster → String → String → ℕ → Oncall → Type 0
AnswersOncall lib s tenant id at c =
    ◌≡◌ {A = Result Err (Reply Payload)} (on_call_read lib tenant id at (calm s)).0
      (ok (record { code = 200; body = json (oncall c) }))

parsed_duration : (sched : Schedule) → IsParsed sched → (d : ℕ) × (shift_duration_of sched ≡ ok d)
unfolding shift_duration_of
parsed_duration sched (d, e) = (d, rw (e, shift_duration_of))

module _ (lib : Library) (s : Roster) (tenant id : String) (sched : Schedule)
    (is_there : find (owned_schedule tenant id) s.schedules ≡ some sched) where
  shifts_answered :
      (from to : ℕ) (l : List Shift)
      → generate_shifts lib.time sched (window_rows tenant id from to s.overrides) from to ≡ ok l
      → AnswersShifts lib s tenant id from to l
  unfolding shifts_read get_schedule list_overrides_in_window call try pure ◌>>=◌
  shifts_answered from to l e = rw is_there (rw e refl)

  on_call_answered :
      (at : ℕ) (q : String × ℕ × ℕ)
      → on_call_at lib.time sched (window_rows tenant id at (at + second) s.overrides) at ≡ ok q
      → (c : Oncall) × (c.user_id ≡ q.0) × AnswersOncall lib s tenant id at c
  unfolding on_call_read get_schedule list_overrides_in_window answer_on_call get_user_by_sub call
      try pure ◌>>=◌
  on_call_answered at q e = (
    record {
      user_id = q.0;
      username = username_or q.0 (find (of_sub q.0) s.users);
      starts_at = q.1;
      ends_at = q.2;
    },
    refl,
    rw is_there (rw e refl),
  )

-- In a state that the service reaches from empty tables, for a schedule with a member and a window that begins
-- at the rotation's epoch or later and ends within 292 years of it, where no call fails: `ListShifts` answers
-- with shifts, `GetOnCall` answers at each instant of the window, some shift holds the instant, and every
-- shift that holds it names the user who is on call.
pub shifts_read-on_call_read :
    (lib : Library) (has_index : Bool) (start s : Roster) (tenant id : String) (sched : Schedule)
    (from to : ℕ)
    → start.overrides ≡ []
    → start.schedules ≡ []
    → Reach lib has_index start s
    → find (owned_schedule tenant id) s.schedules ≡ some sched
    → 0 < length sched.rotation
    → epoch lib.time sched ≤ from
    → to ≤ epoch lib.time sched + max_duration
    → (l : List Shift) × AnswersShifts lib s tenant id from to l
      × ((at : ℕ)
          → from ≤ at
          → at < to
          → (c : Oncall) × AnswersOncall lib s tenant id at c
            × Any (Covers at) l
            × All (λ x. Covers at x → x.user_id ≡ c.user_id) l)
shifts_read-on_call_read lib has_index start s tenant id sched from to h k reach is_there member lo
      hi =
    let (disjoint, all) = Reach-IsSound h k reach in
    let (d, parsed) =
      parsed_duration sched
        (find-All IsParsed (owned_schedule tenant id) s.schedules sched all is_there) in
    let rows = window_rows tenant id from to s.overrides in
    let (l, made, at_each) =
      generate_shifts_agree lib.time sched rows from to d member parsed lo hi
        (window_rows-AreApart tenant id from to s.overrides disjoint) in
    (
      l,
      shifts_answered lib s tenant id sched is_there from to l made,
      λ at after before.
          let (q, known, covered, users) = at_each at after before in
          let (c, user, answered) = on_call_answered lib s tenant id sched is_there at q (
            same_on_call lib.time sched tenant id at (at + second) from to at s.overrides disjoint
              (omega arith) (omega arith) after before
            ∙ known) in
          (
            c,
            answered,
            covered,
            subst (λ u. All (λ x. Covers at x → x.user_id ≡ u) l) (sym user) users,
          ),
    )
