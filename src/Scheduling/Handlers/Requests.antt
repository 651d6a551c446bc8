-- ===== src/Scheduling/Handlers/Requests.antt =====
-- The routes of services/scheduling/cmd/server/main.go, past authentication.
use sreon_call.Prelude.{String, List, ℕ, Bool, Option}
use sreon_call.Scheduling.Roster.{Roster}
use sreon_call.Scheduling.Handlers.{Library}
use sreon_call.Scheduling.Handlers.Shifts.{
  Answer, ScheduleBody, SchedulePatch, OverrideBody, get_one_schedule, get_on_call, list_shifts,
  create_schedule, patch_schedule, delete_schedule, list_schedules, list_overrides, create_override,
  delete_override,
}
use sreon_call.Scheduling.Handlers.Accounts.{
  list_tenants, create_tenant, get_tenant, patch_tenant, delete_tenant, get_members,
  list_webhook_tokens, create_webhook_token, delete_webhook_token, rehydrate, with_user,
}
use sreon_call.Scheduling.Handlers.Configs.{
  ConfigPatch, get_tenant_notification_config, put_tenant_notification_config,
}

-- The method, the parts of the path and of the query, the body, and for a new token what was drawn.
pub data Request : Type 0 where
  schedules_get : String → Request
  schedules_post : String → Option ScheduleBody → Request
  schedule_get schedule_delete : String → String → Request
  schedule_patch : String → String → Option SchedulePatch → Request
  oncall_get : String → String → String → Request
  overrides_get : String → String → Request
  overrides_post : String → String → Option OverrideBody → Request
  override_delete : String → String → Request
  shifts_get : String → String → String → String → Request
  tenants_get : Request
  tenants_post : Option (String × String) → Request
  tenant_get tenant_delete members_get tokens_get : String → Request
  tenant_patch : String → Option String → Request
  tokens_post : String → Option String → String → Request
  token_delete : String → String → Request
  config_get : Bool → String → Request
  config_put : Bool → String → Option ConfigPatch → Request

module _ (lib : Library) (has_index : Bool) where
  unfoldable pub route : Request → Answer
  route (schedules_get tenant) = list_schedules tenant
  route (schedules_post tenant body) = create_schedule lib tenant body
  route (schedule_get tenant id) = get_one_schedule tenant id
  route (schedule_delete tenant id) = delete_schedule tenant id
  route (schedule_patch tenant id body) = patch_schedule lib tenant id body
  route (oncall_get tenant id at) = get_on_call lib tenant id at
  route (overrides_get tenant id) = list_overrides tenant id
  route (overrides_post tenant id body) = create_override lib tenant id body
  route (override_delete tenant id) = delete_override tenant id
  route (shifts_get tenant id from to) = list_shifts lib tenant id from to
  route tenants_get = list_tenants
  route (tenants_post body) = create_tenant body
  route (tenant_get slug) = get_tenant slug
  route (tenant_delete slug) = delete_tenant slug
  route (members_get slug) = get_members lib slug
  route (tokens_get slug) = list_webhook_tokens slug
  route (tenant_patch slug body) = patch_tenant slug body
  route (tokens_post slug body raw) = create_webhook_token lib has_index slug body raw
  route (token_delete slug id) = delete_webhook_token lib has_index slug id
  route (config_get is_service slug) = get_tenant_notification_config is_service slug
  route (config_put is_service slug body) = put_tenant_notification_config lib is_service slug body

  -- A request of a user, an empty one where there is none, who is kept first.
  unfoldable pub serve : String → String → String → String → Request → Answer
  serve sub username name email q = with_user sub username name email (route q)

  -- The service starts again, answers a request whatever fails, or time passes.
  pub data Step : Roster → Roster → Type 0 where
    starts :
        (faults : List Bool) (s : Roster)
        → Step s (rehydrate (record { state = s; faults = faults })).1.state
    serves :
        (sub username name email : String) (q : Request) (faults : List Bool) (s : Roster)
        → Step s (serve sub username name email q (record { state = s; faults = faults })).1.state
    passes : (s : Roster) (now : ℕ) → Step s (record s { clock = now })

  pub data Reach (s : Roster) : Roster → Type 0 where
    here : Reach s s
    next : {t u : Roster} → Reach s t → Step t u → Reach s u
