-- ===== src/Scheduling/Handlers/Reachable.antt =====
-- What holds of the tables of the scheduling service whatever it is asked.
use sreon_call.Prelude.{◌≡◌, sym, subst, [], Bool, All}
use sreon_call.Scheduling.Roster.{Roster}
use sreon_call.Scheduling.Roster.Schedules.Apart.{AreDisjoint}
use sreon_call.Scheduling.Handlers.{Library}
use sreon_call.Scheduling.Handlers.Requests.{
  Request, schedules_get, schedules_post, schedule_get, schedule_delete, schedule_patch, oncall_get,
  overrides_get, overrides_post, override_delete, shifts_get, tenants_get, tenants_post, tenant_get,
  tenant_delete, members_get, tokens_get, tenant_patch, tokens_post, token_delete, config_get,
  config_put, route, serve, Step, starts, serves, passes, Reach, here, next,
}
use sreon_call.Scheduling.Handlers.Sound.{IsParsed, IsSound}
use sreon_call.Scheduling.Handlers.Kept.{
  IsKept, list_schedules-IsKept, create_schedule-IsKept, get_one_schedule-IsKept,
  delete_schedule-IsKept, patch_schedule-IsKept, get_on_call-IsKept, list_overrides-IsKept,
  create_override-IsKept, delete_override-IsKept, list_shifts-IsKept,
}
use sreon_call.Scheduling.Handlers.Untouched.{
  list_tenants-IsKept, create_tenant-IsKept, get_tenant-IsKept, patch_tenant-IsKept,
  delete_tenant-IsKept, get_members-IsKept, list_webhook_tokens-IsKept, create_webhook_token-IsKept,
  delete_webhook_token-IsKept, rehydrate-Keeps, with_user-IsKept, get_config-IsKept,
  put_config-IsKept,
}

module _ (lib : Library) (has_index : Bool) where
  route-IsKept : (q : Request) → IsKept (route lib has_index q)
  unfolding route
  route-IsKept (schedules_get tenant) = list_schedules-IsKept tenant
  route-IsKept (schedules_post tenant body) = create_schedule-IsKept lib tenant body
  route-IsKept (schedule_get tenant id) = get_one_schedule-IsKept tenant id
  route-IsKept (schedule_delete tenant id) = delete_schedule-IsKept tenant id
  route-IsKept (schedule_patch tenant id body) = patch_schedule-IsKept lib tenant id body
  route-IsKept (oncall_get tenant id at) = get_on_call-IsKept lib tenant id at
  route-IsKept (overrides_get tenant id) = list_overrides-IsKept tenant id
  route-IsKept (overrides_post tenant id body) = create_override-IsKept lib tenant id body
  route-IsKept (override_delete tenant id) = delete_override-IsKept tenant id
  route-IsKept (shifts_get tenant id from to) = list_shifts-IsKept lib tenant id from to
  route-IsKept tenants_get = list_tenants-IsKept
  route-IsKept (tenants_post body) = create_tenant-IsKept body
  route-IsKept (tenant_get slug) = get_tenant-IsKept slug
  route-IsKept (tenant_delete slug) = delete_tenant-IsKept slug
  route-IsKept (members_get slug) = get_members-IsKept lib slug
  route-IsKept (tokens_get slug) = list_webhook_tokens-IsKept slug
  route-IsKept (tenant_patch slug body) = patch_tenant-IsKept slug body
  route-IsKept (tokens_post slug body raw) = create_webhook_token-IsKept lib has_index slug body raw
  route-IsKept (token_delete slug id) = delete_webhook_token-IsKept lib has_index slug id
  route-IsKept (config_get is_service slug) = get_config-IsKept is_service slug
  route-IsKept (config_put is_service slug body) = put_config-IsKept lib is_service slug body

  Step-IsSound : {s t : Roster} → Step lib has_index s t → IsSound s → IsSound t
  unfolding serve
  Step-IsSound (starts faults s) h = rehydrate-Keeps.at (record { state = s; faults = faults }) h
  Step-IsSound (serves sub username name email q faults s) h =
      (with_user-IsKept sub username name email (route lib has_index q) (route-IsKept q)).at
        (record { state = s; faults = faults }) h
  Step-IsSound (passes s now) h = h

-- From empty tables on, whatever requests are served one after the other and whatever fails, no two
-- overrides of a schedule overlap, no override is empty, and the shift duration of every schedule is one that
-- `ParseISO8601Duration` takes.
pub Reach-IsSound :
    {lib : Library} {has_index : Bool} {s t : Roster}
    → s.overrides ≡ []
    → s.schedules ≡ []
    → Reach lib has_index s t
    → IsSound t
Reach-IsSound no_overrides no_schedules here =
    (subst AreDisjoint (sym no_overrides) tt, subst (All IsParsed) (sym no_schedules) tt)
Reach-IsSound {lib} {has_index} no_overrides no_schedules (next r st) =
    Step-IsSound lib has_index st (Reach-IsSound no_overrides no_schedules r)
