-- ===== src/Scheduling/Handlers/Configs.antt =====
-- The notification config of a tenant in services/scheduling/internal/handler/handler.go.
pub mod Saved
use Prim.Native.String.{◌++◌ as ◌<>◌, slice, len}
use text.Mathlib.Text.{starts_with, find?}
use sreon_call.Prelude.{
  ℕ, ◌+◌, String, str_eq, List, [], ◌∷◌, Bool, true, false, not, ◌&&◌, Option, none, some, ltb,
  if◌then◌else◌, Result, ok, err,
}
use sreon_call.Effects.{Err, not_found, Io, pure, try, ◌>>=◌}
use sreon_call.Effects.Http.{
  Reply, reply, write_error, write_json, internal_error, or_internal_error,
}
use sreon_call.Scheduling.Roster.{NotificationConfig, Roster}
use sreon_call.Scheduling.Roster.Tenants.{get_notification_config, upsert_notification_config}
use sreon_call.Scheduling.Handlers.{Payload, config, Library}
use sreon_call.Scheduling.Handlers.Shifts.{Answer, or_kept}

-- ── `maskURL`

abbrev pub mask_at : String → String → Option ℕ → Option String
mask_at prefix rest none = none
mask_at prefix rest (some slash) = some (prefix <> (slice rest 0 slash <> "/***"))

abbrev pub after_prefix : String → String → String
after_prefix prefix raw = slice raw (len prefix) (len raw)

-- One round of the loop over the prefixes.
unfoldable pub mask_by : String → String → Option String
mask_by prefix raw =
    if ltb (len prefix) (len raw) && starts_with raw prefix
    then mask_at prefix (after_prefix prefix raw) (find? (after_prefix prefix raw) "/")
    else none

abbrev pub or_else : Option String → String → String
or_else (some masked) other = masked
or_else none other = other

unfoldable pub mask_url : String → String
mask_url raw =
    if str_eq raw ""
    then ""
    else or_else (mask_by "https://" raw) (or_else (mask_by "http://" raw) "***")

-- ── The handlers

abbrev pub default_config : String → NotificationConfig
default_config slug = record {
  tenant_id = slug;
  mattermost_enabled = true;
  mattermost_webhook_url = "";
  mattermost_channel = "";
  smtp_from = "";
  email_enabled = true;
  email_reply_to = "";
  email_subject_prefix = "";
}

abbrev pub or_default :
    String → Result Err NotificationConfig → (NotificationConfig → Answer) → Answer
or_default slug (ok c) next = next c
or_default slug (err not_found) next = next (default_config slug)
or_default slug (err x) next = internal_error

-- The webhook is shown to a caller with the service's key alone.
unfoldable pub shown : Bool → NotificationConfig → NotificationConfig
shown true c = c
shown false c = record c { mattermost_webhook_url = mask_url c.mattermost_webhook_url }

unfoldable pub get_tenant_notification_config : Bool → String → Answer
get_tenant_notification_config is_service slug = do
  r ← try (get_notification_config slug)
  or_default slug r λ c. write_json 200 (config (shown is_service c))

-- The fields that are there.
pub record ConfigPatch : Type 0 where
  pub mattermost_enabled : Option Bool
  pub mattermost_webhook_url : Option String
  pub mattermost_channel : Option String
  pub smtp_from : Option String
  pub email_enabled : Option Bool
  pub email_reply_to : Option String
  pub email_subject_prefix : Option String

-- An empty webhook is as good as none.
abbrev pub new_webhook : Option String → Option String
new_webhook none = none
new_webhook (some raw) = if str_eq raw "" then none else some raw

unfoldable pub merged : ConfigPatch → String → NotificationConfig → NotificationConfig
merged p slug c = record {
  tenant_id = slug;
  mattermost_enabled = or_kept p.mattermost_enabled c.mattermost_enabled;
  mattermost_webhook_url = or_kept (new_webhook p.mattermost_webhook_url) c.mattermost_webhook_url;
  mattermost_channel = or_kept p.mattermost_channel c.mattermost_channel;
  smtp_from = or_kept p.smtp_from c.smtp_from;
  email_enabled = or_kept p.email_enabled c.email_enabled;
  email_reply_to = or_kept p.email_reply_to c.email_reply_to;
  email_subject_prefix = or_kept p.email_subject_prefix c.email_subject_prefix;
}

module _ (lib : Library) where
  abbrev pub if_public : Option String → Answer → Answer
  if_public none next = next
  if_public (some raw) next =
      if lib.is_public_url raw
      then next
      else write_error 422
          "invalid mattermost_webhook_url: must be https and point to a public address"

  unfoldable pub write_config : Bool → NotificationConfig → Answer
  write_config is_service c = do
    r ← try (upsert_notification_config c)
    or_internal_error r λ _. write_json 200 (config (shown is_service c))

  unfoldable pub put_tenant_notification_config : Bool → String → Option ConfigPatch → Answer
  put_tenant_notification_config is_service slug none = write_error 400 "invalid JSON"
  put_tenant_notification_config is_service slug (some p) = do
    r ← try (get_notification_config slug)
    or_default slug r λ c.
        if_public (new_webhook p.mattermost_webhook_url) (write_config is_service (merged p slug c))
