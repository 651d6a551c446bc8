-- ===== src/Scheduling/Handlers/Accounts.antt =====
-- Tenants, members and webhook tokens in services/scheduling/internal/handler/handler.go, the fill of
-- the token index and the middleware that keeps users in services/scheduling/cmd/server/main.go.
pub mod Tokens
use sreon_call.Prelude.{
  String, str_eq, List, [], ◌∷◌, map, Bool, true, false, ◌||◌, Option, none, some, if◌then◌else◌,
  Result, ok, err,
}
use sreon_call.Effects.{Err, not_found, conflict, Io, call, pure, try, ◌>>=◌, ◌>>◌}
use sreon_call.Effects.Http.{
  Reply, reply, write_error, write_json, no_body, internal_error, or_internal_error, or_missing,
}
use sreon_call.Scheduling.Roster.{Tenant, WebhookToken, TokenHashEntry, Roster}
use sreon_call.Scheduling.Roster.Tenants.{
  list_webhook_token_hashes, get_tenant_by_slug, upsert_user,
}
use sreon_call.Scheduling.Roster.Tenants
use sreon_call.Scheduling.Roster.TokenIndex.{set, set_many, del}
use sreon_call.Scheduling.Handlers.{
  Member, Payload, tenant, tenants, members, tokens, token_made, Library,
}
use sreon_call.Scheduling.Handlers.Shifts.{Answer}

-- ── Tenants

unfoldable pub list_tenants : Answer
list_tenants = do
  r ← try Tenants.list_tenants
  or_internal_error r λ found. write_json 200 (tenants found)

abbrev pub answer_tenant : Result Err Tenant → Answer
answer_tenant (ok t) = write_json 201 (tenant t)
answer_tenant (err conflict) = write_error 409 "slug already exists"
answer_tenant (err x) = internal_error

-- The body's slug and name, which are empty where they are not there.
unfoldable pub create_tenant : Option (String × String) → Answer
create_tenant none = write_error 400 "invalid JSON"
create_tenant (some (slug, name)) =
    if str_eq slug "" || str_eq name "" then write_error 422 "slug and name required" else do
      r ← try (Tenants.create_tenant (record { id = ""; slug = slug; name = name; created_at = 0 }))
      answer_tenant r

unfoldable pub get_tenant : String → Answer
get_tenant slug = do
  r ← try (get_tenant_by_slug slug)
  or_missing "not found" r λ t. write_json 200 (tenant t)

unfoldable pub patch_tenant : String → Option String → Answer
patch_tenant slug none = write_error 400 "invalid JSON"
patch_tenant slug (some name) = if str_eq name "" then write_error 422 "name required" else do
  r ← try (Tenants.update_tenant slug name)
  or_missing "not found" r λ t. write_json 200 (tenant t)

unfoldable pub delete_tenant : String → Answer
delete_tenant slug = do r ← try (Tenants.delete_tenant slug); or_missing "not found" r λ _. no_body

abbrev pub members_by : Option (String → List Member) → String → Answer
members_by none slug = write_error 503 "keycloak admin not configured"
members_by (some members_of) slug = do
  r ← try (call λ (s : Roster). (ok (members_of slug), s))
  or_internal_error r λ found. write_json 200 (members found)

unfoldable pub get_members : Library → String → Answer
get_members lib slug = members_by lib.members_of slug

-- ── Webhook tokens

unfoldable pub list_webhook_tokens : String → Answer
list_webhook_tokens slug = do
  r ← try (Tenants.list_webhook_tokens slug)
  or_internal_error r λ found. write_json 200 (tokens found)

-- With `has_index` false the service has no Redis.
abbrev pub if_indexed : Bool → Io Roster (Unit {0}) → Io Roster (Unit {0})
if_indexed false m = pure tt
if_indexed true m = do try m; pure tt

module _ (lib : Library) (has_index : Bool) where
  -- With the token that `generateToken` drew.
  unfoldable pub store_token : String → String → String → Answer
  store_token slug source raw = do
    r ← try (Tenants.create_webhook_token slug source (lib.hash_token raw))
    or_internal_error r λ t. do
      if_indexed has_index (set (lib.hash_token raw) slug)
      write_json 201 (token_made t raw)

  unfoldable pub create_webhook_token : String → Option String → String → Answer
  create_webhook_token slug none raw = write_error 400 "invalid JSON"
  create_webhook_token slug (some source) raw =
      if str_eq source "alertmanager" || str_eq source "grafana"
      then store_token slug source raw
      else write_error 422 "source must be alertmanager or grafana"

  unfoldable pub delete_webhook_token : String → String → Answer
  delete_webhook_token slug id = do
    r ← try (Tenants.delete_webhook_token slug id)
    or_missing "not found" r λ hash. do if_indexed has_index (del hash); no_body

-- ── The start of the service, and users

abbrev pub fill_with : Result Err (List TokenHashEntry) → Io Roster (Unit {0})
fill_with (ok entries) = do try (set_many entries); pure tt
fill_with (err _) = pure tt

unfoldable pub rehydrate : Io Roster (Unit {0})
rehydrate = do r ← try list_webhook_token_hashes; fill_with r

unfoldable pub with_user : String → String → String → String → Answer → Answer
with_user sub username name email next =
    if str_eq sub "" then next else do try (upsert_user sub username name email); next
