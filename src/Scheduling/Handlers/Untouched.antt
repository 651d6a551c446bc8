-- ===== src/Scheduling/Handlers/Untouched.antt =====
-- The handlers of tenants, tokens and configs, the fill of the token index and the middleware for users
-- write to tables of their own (services/scheduling/internal/handler/handler.go).
use sreon_call.Prelude.{
  String, List, [], ◌∷◌, Bool, true, false, Option, none, some, Result, ok, err,
}
use sreon_call.Effects.{Err, not_found, conflict, failed, cancelled, dropped, Io}
use sreon_call.Effects.Evolves.{Evolves, Evolves-call, Evolves-pure, evolves_rules}
use sreon_call.Effects.Http.Rules.{http_rules}
use sreon_call.Scheduling.Roster.{Roster, Tenant, TokenHashEntry, NotificationConfig}
use sreon_call.Scheduling.Roster.Tenants
use sreon_call.Scheduling.Roster.Tenants.{
  get_notification_config, upsert_notification_config, get_tenant_by_slug,
  list_webhook_token_hashes, upsert_user,
}
use sreon_call.Scheduling.Roster.TokenIndex.{set, set_many, del}
use sreon_call.Scheduling.Handlers.{Library, Member}
use sreon_call.Scheduling.Handlers.Shifts.{Answer}
use sreon_call.Scheduling.Handlers.Accounts.{
  list_tenants, answer_tenant, create_tenant, get_tenant, patch_tenant, delete_tenant, members_by,
  get_members, list_webhook_tokens, if_indexed, store_token, create_webhook_token,
  delete_webhook_token, fill_with, rehydrate, with_user,
}
use sreon_call.Scheduling.Handlers.Configs.{
  ConfigPatch, or_default, get_tenant_notification_config, if_public, write_config,
  put_tenant_notification_config,
}
use sreon_call.Scheduling.Handlers.Sound.{Keeps, Keeps-Preorder, either}
use sreon_call.Scheduling.Handlers.Kept.{IsKept, reading}

-- ── The store

create_tenant-Keeps : (t : Tenant) → Evolves Keeps (Tenants.create_tenant t)
unfolding Tenants.create_tenant
create_tenant-Keeps t = Evolves-call Keeps-Preorder _ (λ s h. either _ _ _ h h)

update_tenant-Keeps : (slug name : String) → Evolves Keeps (Tenants.update_tenant slug name)
unfolding Tenants.update_tenant
update_tenant-Keeps slug name = Evolves-call Keeps-Preorder _ (λ s h. h)

delete_tenant-Keeps : (slug : String) → Evolves Keeps (Tenants.delete_tenant slug)
unfolding Tenants.delete_tenant
delete_tenant-Keeps slug = Evolves-call Keeps-Preorder _ (λ s h. h)

create_token-Keeps :
    (slug source hash : String) → Evolves Keeps (Tenants.create_webhook_token slug source hash)
unfolding Tenants.create_webhook_token
create_token-Keeps slug source hash = Evolves-call Keeps-Preorder _ (λ s h. either _ _ _ h h)

delete_token-Keeps : (slug id : String) → Evolves Keeps (Tenants.delete_webhook_token slug id)
unfolding Tenants.delete_webhook_token
delete_token-Keeps slug id = Evolves-call Keeps-Preorder _ (λ s h. h)

upsert_config-Keeps : (c : NotificationConfig) → Evolves Keeps (upsert_notification_config c)
unfolding upsert_notification_config
upsert_config-Keeps c = Evolves-call Keeps-Preorder _ (λ s h. h)

upsert_user-Keeps : (a b c d : String) → Evolves Keeps (upsert_user a b c d)
unfolding upsert_user
upsert_user-Keeps a b c d = Evolves-call Keeps-Preorder _ (λ s h. h)

set-Keeps : (hash slug : String) → Evolves Keeps (set hash slug)
unfolding set
set-Keeps hash slug = Evolves-call Keeps-Preorder _ (λ s h. h)

del-Keeps : (hash : String) → Evolves Keeps (del hash)
unfolding del
del-Keeps hash = Evolves-call Keeps-Preorder _ (λ s h. h)

set_many-Keeps : (entries : List TokenHashEntry) → Evolves Keeps (set_many entries)
unfolding set_many
set_many-Keeps [] = Evolves-pure Keeps-Preorder tt
set_many-Keeps (e ∷ es) = Evolves-call Keeps-Preorder _ (λ s h. h)

-- ── The handlers

ruleset kept_rules = (
  evolves_rules, http_rules, Keeps-Preorder, reading, create_tenant-Keeps, update_tenant-Keeps,
  delete_tenant-Keeps, create_token-Keeps, delete_token-Keeps, upsert_config-Keeps,
  upsert_user-Keeps, set-Keeps, del-Keeps, set_many-Keeps,
)

pub list_tenants-IsKept : IsKept list_tenants
unfolding list_tenants Tenants.list_tenants
list_tenants-IsKept = search (kept_rules)

answer_tenant-IsKept : (r : Result Err Tenant) → IsKept (answer_tenant r)
answer_tenant-IsKept (ok t) = search (kept_rules)
answer_tenant-IsKept (err not_found) = search (kept_rules)
answer_tenant-IsKept (err conflict) = search (kept_rules)
answer_tenant-IsKept (err failed) = search (kept_rules)
answer_tenant-IsKept (err dropped) = search (kept_rules)
answer_tenant-IsKept (err cancelled) = search (kept_rules)

pub create_tenant-IsKept : (body : Option (String × String)) → IsKept (create_tenant body)
unfolding create_tenant
create_tenant-IsKept none = search (kept_rules)
create_tenant-IsKept (some (slug, name)) = search (kept_rules, answer_tenant-IsKept) depth 8

pub get_tenant-IsKept : (slug : String) → IsKept (get_tenant slug)
unfolding get_tenant get_tenant_by_slug
get_tenant-IsKept slug = search (kept_rules)

pub patch_tenant-IsKept : (slug : String) (body : Option String) → IsKept (patch_tenant slug body)
unfolding patch_tenant
patch_tenant-IsKept slug none = search (kept_rules)
patch_tenant-IsKept slug (some name) = search (kept_rules)

pub delete_tenant-IsKept : (slug : String) → IsKept (delete_tenant slug)
unfolding delete_tenant
delete_tenant-IsKept slug = search (kept_rules)

members_by-IsKept :
    (answers : Option (String → List Member)) (slug : String) → IsKept (members_by answers slug)
members_by-IsKept none slug = search (kept_rules)
members_by-IsKept (some answers) slug = search (kept_rules)

pub get_members-IsKept : (lib : Library) (slug : String) → IsKept (get_members lib slug)
unfolding get_members
get_members-IsKept lib slug = members_by-IsKept lib.members_of slug

pub list_webhook_tokens-IsKept : (slug : String) → IsKept (list_webhook_tokens slug)
unfolding list_webhook_tokens Tenants.list_webhook_tokens
list_webhook_tokens-IsKept slug = search (kept_rules)

if_indexed-Keeps :
    (b : Bool) (m : Io Roster (Unit {0})) → Evolves Keeps m → Evolves Keeps (if_indexed b m)
if_indexed-Keeps true m h = search (kept_rules)
if_indexed-Keeps false m h = search (kept_rules)

module _ (lib : Library) (has_index : Bool) where
  store_token-IsKept :
      (slug source raw : String) → IsKept (store_token lib has_index slug source raw)
  unfolding store_token
  store_token-IsKept slug source raw = search (kept_rules, if_indexed-Keeps) depth 9

  pub create_webhook_token-IsKept :
      (slug : String) (body : Option String) (raw : String)
      → IsKept (create_webhook_token lib has_index slug body raw)
  unfolding create_webhook_token
  create_webhook_token-IsKept slug none raw = search (kept_rules)
  create_webhook_token-IsKept slug (some source) raw = search (kept_rules, store_token-IsKept)

  pub delete_webhook_token-IsKept :
      (slug id : String) → IsKept (delete_webhook_token lib has_index slug id)
  unfolding delete_webhook_token
  delete_webhook_token-IsKept slug id = search (kept_rules, if_indexed-Keeps) depth 9

fill_with-Keeps : (r : Result Err (List TokenHashEntry)) → Evolves Keeps (fill_with r)
fill_with-Keeps (ok entries) = search (kept_rules)
fill_with-Keeps (err x) = search (kept_rules)

pub rehydrate-Keeps : Evolves Keeps rehydrate
unfolding rehydrate list_webhook_token_hashes
rehydrate-Keeps = search (kept_rules, fill_with-Keeps)

pub with_user-IsKept :
    (sub username name email : String) (next : Answer)
    → IsKept next
    → IsKept (with_user sub username name email next)
unfolding with_user
with_user-IsKept sub username name email next h = search (kept_rules)

-- ── Notification configs

or_default-IsKept :
    (slug : String) (r : Result Err NotificationConfig) (next : NotificationConfig → Answer)
    → ((c : NotificationConfig) → IsKept (next c))
    → IsKept (or_default slug r next)
or_default-IsKept slug (ok c) next h = h c
or_default-IsKept slug (err not_found) next h = h _
or_default-IsKept slug (err conflict) next h = search (kept_rules)
or_default-IsKept slug (err failed) next h = search (kept_rules)
or_default-IsKept slug (err dropped) next h = search (kept_rules)
or_default-IsKept slug (err cancelled) next h = search (kept_rules)

pub get_config-IsKept :
    (is_service : Bool) (slug : String) → IsKept (get_tenant_notification_config is_service slug)
unfolding get_tenant_notification_config get_notification_config
get_config-IsKept is_service slug = search (kept_rules, or_default-IsKept)

if_public-IsKept :
    (lib : Library) (raw : Option String) (next : Answer)
    → IsKept next
    → IsKept (if_public lib raw next)
if_public-IsKept lib none next h = h
if_public-IsKept lib (some raw) next h = search (kept_rules)

write_config-IsKept :
    (lib : Library) (is_service : Bool) (c : NotificationConfig)
    → IsKept (write_config lib is_service c)
unfolding write_config
write_config-IsKept lib is_service c = search (kept_rules)

pub put_config-IsKept :
    (lib : Library) (is_service : Bool) (slug : String) (body : Option ConfigPatch)
    → IsKept (put_tenant_notification_config lib is_service slug body)
unfolding put_tenant_notification_config get_notification_config
put_config-IsKept lib is_service slug none = search (kept_rules)
put_config-IsKept lib is_service slug (some p) =
    search (kept_rules, or_default-IsKept, if_public-IsKept, write_config-IsKept) depth 9
