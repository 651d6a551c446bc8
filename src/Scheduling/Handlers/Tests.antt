-- ===== src/Scheduling/Handlers/Tests.antt =====
-- Runs of the handlers of services/scheduling at concrete inputs, and the theorems applied there.
use sreon_call.Prelude.{
  ℕ, ◌≤◌, ◌<◌, ◌≡◌, refl, List, [], ◌∷◌, map, false, true, none, some, arith, ok, Result, Any, All,
  find,
}
use sreon_call.Effects.{calm, Err, call, pure, try, ◌>>=◌}
use sreon_call.Effects.Http.{Reply, json, no_content}
use sreon_call.Scheduling.Duration.{
  take_digits, drop_digits, component, parse_loop, check_positive, parse_iso8601_duration, atoi,
  add_component,
}
use sreon_call.Scheduling.Rotation.{Override, Shift, epoch, location}
use sreon_call.Scheduling.Rotation.Shifts.{Covers}
use sreon_call.Scheduling.Tests.{utc_only, pt12h, cover, pair}
use sreon_call.Scheduling.Roster.{Roster, TokenRow, NotificationConfig}
use sreon_call.Scheduling.Roster.Schedules.{
  owned_schedule, Creation, overlapping, create_override, list_overrides, insert_override,
  find_overlap,
}
use sreon_call.Scheduling.Roster.Schedules
use sreon_call.Scheduling.Roster.Schedules.Apart.{AreDisjoint}
use sreon_call.Scheduling.Roster.Schedules.Conflicts.{both, both_meet, foreign_row_blocks}
use sreon_call.Scheduling.Roster.Tenants.{entry_of}
use sreon_call.Scheduling.Handlers.{Payload, config, Oncall, Library}
use sreon_call.Scheduling.Handlers.Shifts.{ScheduleBody, create_schedule}
use sreon_call.Scheduling.Handlers.Accounts.{rehydrate, delete_webhook_token, with_user}
use sreon_call.Scheduling.Handlers.Accounts.Tokens.{
  resolve, last_or, rehydrate_lem, revoked_resolves,
}
use sreon_call.Scheduling.Handlers.Configs.{
  ConfigPatch, default_config, shown, get_tenant_notification_config,
  put_tenant_notification_config,
}
use sreon_call.Scheduling.Handlers.Configs.Saved.{IsPatched, put-get}
use sreon_call.Scheduling.Handlers.Requests.{
  schedules_post, route, serve, Reach, here, next, serves,
}
use sreon_call.Scheduling.Handlers.Sound.{IsSound}
use sreon_call.Scheduling.Handlers.Reachable.{Reach-IsSound}
use sreon_call.Scheduling.Handlers.Agree.{AnswersShifts, AnswersOncall, shifts_read-on_call_read}

abbrev library : Library
library = record {
  time = utc_only;
  parse_date = λ text. some 100;
  parse_rfc3339 = λ text. none;
  hash_token = λ raw. raw;
  is_public_url = λ raw. true;
  members_of = none;
}

abbrev empty : Roster
empty = record {
  schedules = [];
  overrides = [];
  tenants = [];
  tokens = [];
  users = [];
  configs = [];
  index = [];
  clock = 0;
  next_id = 0;
  uuid = λ n. "s1";
}

abbrev body : ScheduleBody
body = record {
  name = "primary";
  timezone = "";
  rotation = "ann" ∷ "bob" ∷ [];
  shift_duration = pt12h;
  start_date = "today";
}

abbrev one_schedule : Roster
one_schedule =
    (serve library true "" "" "" "" (schedules_post "acme" (some body))
      (record { state = empty; faults = [] })).1.state

abbrev run : Reach library true empty one_schedule
run = next here (serves "" "" "" "" (schedules_post "acme" (some body)) [] empty)

Reach-IsSound_example : IsSound one_schedule
Reach-IsSound_example = Reach-IsSound refl refl run

one_schedule-pair : find (owned_schedule "acme" "s1") one_schedule.schedules ≡ some pair
unfolding serve with_user route create_schedule Schedules.create_schedule call pure try ◌>>=◌
    parse_iso8601_duration parse_loop component take_digits drop_digits atoi add_component
    check_positive
one_schedule-pair = refl

epoch-pair : epoch utc_only pair ≡ 100
unfolding epoch location
epoch-pair = refl

shifts_read-on_call_read_example :
    (l : List Shift) × AnswersShifts library one_schedule "acme" "s1" 100 900 l
    × ((at : ℕ)
        → 100 ≤ at
        → at < 900
        → (c : Oncall) × AnswersOncall library one_schedule "acme" "s1" at c
          × Any (Covers at) l
          × All (λ x. Covers at x → x.user_id ≡ c.user_id) l)
shifts_read-on_call_read_example =
    shifts_read-on_call_read library true empty one_schedule "acme" "s1" pair 100 900 refl refl run
      one_schedule-pair (omega arith) (omega (arith, epoch-pair)) (omega (arith, epoch-pair))

-- ── Overrides

abbrev rota : Roster
rota = record empty { schedules = pair ∷ [] }

both_meet_example : ¬ AreDisjoint (both (cover 3 9) (cover 5 12) (calm rota)).1.state.overrides
both_meet_example = both_meet (cover 3 9) (cover 5 12) rota refl refl refl refl refl refl

abbrev stranger : Override
stranger = record (cover 3 9) { tenant_id = "other" }

foreign_row_blocks_example :
    let t = (create_override stranger (calm rota)).1.state in
    ((list_overrides "acme" "s1" (calm t)).0 ≡ (list_overrides "acme" "s1" (calm rota)).0)
    × (◌≡◌ {A = Result Err Creation}
        (create_override (cover 5 12) (calm t)).0
        (ok (overlapping "eve" 3 9)))
foreign_row_blocks_example = foreign_row_blocks stranger (cover 5 12) rota refl refl refl refl refl

-- ── Tokens

abbrev token : TokenRow
token = record {
  token = record { id = "t1"; tenant_id = "acme"; source = "grafana"; created_at = 0 };
  token_hash = "h1";
}

abbrev indexed : Roster
indexed = record empty { tokens = token ∷ []; index = entry_of token ∷ [] }

rehydrate_lem_example :
    resolve "h1" (rehydrate (calm indexed)).1.state.index
    ≡ last_or "h1" (map entry_of indexed.tokens) (resolve "h1" indexed.index)
rehydrate_lem_example = rehydrate_lem indexed "h1"

revoked_resolves_example :
    let out =
      delete_webhook_token library true "acme" "t1"
        (record { state = indexed; faults = false ∷ true ∷ [] }) in
    (◌≡◌ {A = Result Err (Reply Payload)} out.0 (ok (record { code = 204; body = no_content })))
    × (resolve "h1" out.1.state.index ≡ some (entry_of token))
    × (resolve "h1" (rehydrate (calm out.1.state)).1.state.index ≡ some (entry_of token))
revoked_resolves_example = revoked_resolves library "acme" "t1" token indexed refl refl refl

-- ── Notification configs

abbrev patch : ConfigPatch
patch = record {
  mattermost_enabled = none;
  mattermost_webhook_url = some "https://chat/hooks/1";
  mattermost_channel = none;
  smtp_from = none;
  email_enabled = some false;
  email_reply_to = none;
  email_subject_prefix = none;
}

put-get_example :
    let t =
      (put_tenant_notification_config library true "acme" (some patch) (calm empty)).1.state in
    (c : NotificationConfig) × IsPatched patch "acme" (default_config "acme") c
    × ◌≡◌ {A = Result Err (Reply Payload)}
        (get_tenant_notification_config false "acme" (calm t)).0
        (ok (record { code = 200; body = json (config (shown false c)) }))
put-get_example = put-get library true false "acme" patch empty refl
