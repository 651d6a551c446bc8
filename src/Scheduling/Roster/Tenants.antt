-- ===== src/Scheduling/Roster/Tenants.antt =====
-- Tenants, webhook tokens, users and notification configs in
-- services/scheduling/internal/store/store.go.
use sreon_call.Prelude.{
  suc, String, str_eq, List, [], ◌∷◌, ◌++◌, map, Bool, not, ◌&&◌, Option, none, some, leb,
  if◌then◌else◌, Result, ok, err, filter, any, find, sort_by, update_where,
}
use sreon_call.Effects.{Err, not_found, conflict, failed, Io, call}
use sreon_call.Scheduling.Roster.{
  Tenant, WebhookToken, TokenRow, TokenHashEntry, User, NotificationConfig, Roster,
}
use sreon_call.Scheduling.Roster.Schedules.{found, affected}

-- ── Tenants

abbrev pub of_slug : String → Tenant → Bool
of_slug slug t = str_eq t.slug slug

-- A slug that is there already is a unique violation.
unfoldable pub create_tenant : Tenant → Io Roster Tenant
create_tenant t = call λ s.
    let row = record t { id = s.uuid s.next_id; created_at = s.clock } in
    if any (of_slug t.slug) s.tenants
    then (err conflict, s)
    else (ok row, record s { tenants = s.tenants ++ (row ∷ []); next_id = suc s.next_id })

unfoldable pub get_tenant_by_slug : String → Io Roster Tenant
get_tenant_by_slug slug = call λ s. (found (find (of_slug slug) s.tenants), s)

unfoldable pub list_tenants : Io Roster (List Tenant)
list_tenants = call λ s. (ok (sort_by (λ a b. leb a.created_at b.created_at) s.tenants), s)

unfoldable pub update_tenant : String → String → Io Roster Tenant
update_tenant slug name = call λ s.
    let rows = update_where (of_slug slug) (λ t. record t { name = name }) s.tenants in
    (found (find (of_slug slug) rows), record s { tenants = rows })

unfoldable pub delete_tenant : String → Io Roster (Unit {0})
delete_tenant slug = call λ s. (
  affected (any (of_slug slug) s.tenants),
  record s { tenants = filter (λ t. not (of_slug slug t)) s.tenants },
)

-- ── Webhook tokens

abbrev pub of_hash : String → TokenRow → Bool
of_hash hash r = str_eq r.token_hash hash

-- UNIQUE (token_hash).
unfoldable pub create_webhook_token : String → String → String → Io Roster WebhookToken
create_webhook_token tenant_id source token_hash = call λ s.
    let t : WebhookToken = record {
      id = s.uuid s.next_id;
      tenant_id = tenant_id;
      source = source;
      created_at = s.clock;
    } in
    if any (of_hash token_hash) s.tokens then (err failed, s) else (
      ok t,
      record s {
        tokens = s.tokens ++ (record { token = t; token_hash = token_hash } ∷ []);
        next_id = suc s.next_id;
      },
    )

unfoldable pub list_webhook_tokens : String → Io Roster (List WebhookToken)
list_webhook_tokens tenant_id = call λ s. (
  ok (
      sort_by (λ a b. leb a.created_at b.created_at)
        (map (λ r. r.token) (filter (λ r. str_eq r.token.tenant_id tenant_id) s.tokens))),
  s,
)

abbrev pub entry_of : TokenRow → TokenHashEntry
entry_of r = record { hash = r.token_hash; tenant_id = r.token.tenant_id }

unfoldable pub list_webhook_token_hashes : Io Roster (List TokenHashEntry)
list_webhook_token_hashes = call λ s. (ok (map entry_of s.tokens), s)

abbrev pub owned_token : String → String → TokenRow → Bool
owned_token tenant_id id r = str_eq r.token.id id && str_eq r.token.tenant_id tenant_id

abbrev pub hash_found : Option TokenRow → Result Err String
hash_found none = err not_found
hash_found (some r) = ok r.token_hash

-- The hash of the row that goes.
unfoldable pub delete_webhook_token : String → String → Io Roster String
delete_webhook_token tenant_id id = call λ s. (
  hash_found (find (owned_token tenant_id id) s.tokens),
  record s { tokens = filter (λ r. not (owned_token tenant_id id r)) s.tokens },
)

-- ── Users

abbrev pub of_sub : String → User → Bool
of_sub sub u = str_eq u.sub sub

unfoldable pub upsert_user : String → String → String → String → Io Roster (Unit {0})
upsert_user sub username name email = call λ s.
    let row : User = record {
      sub = sub;
      preferred_username = username;
      name = name;
      email = email;
      last_seen_at = s.clock;
    } in
    (
      ok tt,
      record s {
        users =
            if any (of_sub sub) s.users
            then update_where (of_sub sub) (λ _. row) s.users
            else s.users ++ (row ∷ []);
      },
    )

abbrev pub username_or : String → Option User → String
username_or sub none = sub
username_or sub (some u) = u.preferred_username

unfoldable pub get_user_by_sub : String → Io Roster String
get_user_by_sub sub = call λ s. (ok (username_or sub (find (of_sub sub) s.users)), s)

-- ── Notification configs

abbrev pub config_of : String → NotificationConfig → Bool
config_of tenant_id c = str_eq c.tenant_id tenant_id

unfoldable pub get_notification_config : String → Io Roster NotificationConfig
get_notification_config tenant_id = call λ s. (found (find (config_of tenant_id) s.configs), s)

unfoldable pub upsert_notification_config : NotificationConfig → Io Roster (Unit {0})
upsert_notification_config c = call λ s. (
  ok tt,
  record s {
    configs =
        if any (config_of c.tenant_id) s.configs
        then update_where (config_of c.tenant_id) (λ _. c) s.configs
        else s.configs ++ (c ∷ []);
  },
)
