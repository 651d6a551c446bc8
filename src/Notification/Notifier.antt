-- ===== src/Notification/Notifier.antt =====
-- services/notification/internal/notifier/notifier.go. Metrics and logs to the console are left out.
pub mod Appends
pub mod Sends
use Prim.Native.String.{◌++◌ as ◌<>◌}
use text.Mathlib.Text.{find?}
use sreon_call.Prelude.{
  ℕ, String, str_eq, List, [], ◌∷◌, ◌++◌, Bool, true, false, not, ◌&&◌, ◌||◌, Option, none, some,
  if◌then◌else◌, Result, ok, err,
}
use sreon_call.Effects.{
  Err, not_found, conflict, failed, dropped, Io, call, pure, raise, try, ◌>>=◌, ◌>>◌,
}
use sreon_call.Escalation.Types.{EscalationTriggered, EscalationExhausted}
use sreon_call.Notification.Types.{
  UserContact, NotificationLog, TenantNotificationConfig, EmailMessage, Desk, Url, Settings,
}
use sreon_call.Notification.Store.{get_contact, append_log}
use sreon_call.Notification.RateLimit.{allow}
use sreon_call.Notification.TenantCache.{get}
use sreon_call.Notification.Dispatcher.{send_email, send_mattermost}
use sreon_call.Notification.Texts.{
  mention_of, exhausted_text, is_usable_url, is_masked, webhook_url_usable, incident_link,
  mattermost_text,
}

abbrev pub log_of : String → String → String → String → String → String → String → NotificationLog
log_of incident_id tenant_id user_id channel status recipient error_detail = record {
  id = "";
  incident_id = incident_id;
  tenant_id = tenant_id;
  user_id = user_id;
  channel = channel;
  status = status;
  recipient = recipient;
  error_detail = error_detail;
  created_at = 0;
}

-- An error of the log is dropped.
abbrev pub note : NotificationLog → Io Desk (Unit {0})
note l = do try (append_log l); pure tt

abbrev pub no_webhook : String
no_webhook = "mattermost webhook URL missing or masked"

module _ (conf : Settings) where
  -- ── One channel

  abbrev pub outcome_status : Result Err (Unit {0}) → String
  outcome_status (ok _) = "delivered"
  outcome_status (err _) = "failed"

  abbrev pub outcome_detail : Result Err (Unit {0}) → String
  outcome_detail (ok _) = ""
  outcome_detail (err x) = conf.error_text x

  -- An error of the limiter allows.
  abbrev pub is_allowed : Result Err Bool → Bool
  is_allowed (ok b) = b
  is_allowed (err _) = true

  unfoldable pub send_allowed :
      String → String → String → String → String → Io Desk (Unit {0}) → Bool → Io Desk (Unit {0})
  send_allowed tenant_id user_id incident_id channel recipient send false =
      note (log_of incident_id tenant_id user_id channel "rate_limited" recipient "")
  send_allowed tenant_id user_id incident_id channel recipient send true = do
    r ← try send
    note (
        log_of incident_id tenant_id user_id channel (outcome_status r) recipient
          (outcome_detail r))

  unfoldable pub dispatch_channel :
      String → String → String → String → String → Io Desk (Unit {0}) → Io Desk (Unit {0})
  dispatch_channel tenant_id user_id incident_id channel recipient send = do
    r ← try (allow conf tenant_id user_id channel)
    send_allowed tenant_id user_id incident_id channel recipient send (is_allowed r)

  -- ── A contact

  abbrev pub message_of : EscalationTriggered → String → EmailMessage
  message_of ev link = record {
    incident_id = ev.incident_id;
    tenant_id = ev.tenant_id;
    title = ev.incident_title;
    severity = ev.incident_severity;
    status = ev.incident_status;
    tier = ev.tier;
    link = link;
    reply_to = "";
    subject_prefix = "";
  }

  abbrev pub email_by :
      EscalationTriggered → UserContact → String → EmailMessage → Io Desk (Unit {0})
  email_by ev contact from msg =
      dispatch_channel ev.tenant_id ev.oncall_user_id ev.incident_id "email" contact.email
        (send_email conf from contact.email msg)

  -- The mail by the tenant's config, with the service's own sender where the config names none.
  abbrev pub configured_mail :
      EscalationTriggered → UserContact → TenantNotificationConfig → Io Desk (Unit {0})
  configured_mail ev contact cfg =
      email_by ev contact (if str_eq cfg.smtp_from "" then conf.smtp_from else cfg.smtp_from)
        (record (message_of ev (incident_link conf ev.tenant_slug ev.incident_id)) {
          reply_to = cfg.email_reply_to;
          subject_prefix = cfg.email_subject_prefix;
        })

  -- Without a config mail is on.
  unfoldable pub dispatch_email :
      EscalationTriggered → UserContact → Option TenantNotificationConfig → Io Desk (Unit {0})
  dispatch_email ev contact none =
      if str_eq contact.email ""
      then pure tt
      else email_by ev contact conf.smtp_from
          (message_of ev (incident_link conf ev.tenant_slug ev.incident_id))
  dispatch_email ev contact (some cfg) =
      if str_eq contact.email "" || not cfg.email_enabled
      then pure tt
      else configured_mail ev contact cfg

  abbrev pub no_webhook_log : EscalationTriggered → Io Desk (Unit {0})
  no_webhook_log ev =
      note
        (log_of ev.incident_id ev.tenant_id ev.oncall_user_id "mattermost" "failed" "" no_webhook)

  abbrev pub post_by :
      EscalationTriggered → UserContact → TenantNotificationConfig → Io Desk (Unit {0})
  post_by ev contact cfg =
      dispatch_channel ev.tenant_id ev.oncall_user_id ev.incident_id "mattermost"
        cfg.mattermost_webhook_url
        (send_mattermost conf cfg.mattermost_webhook_url cfg.mattermost_channel (
          mattermost_text conf (mention_of contact)
            (incident_link conf ev.tenant_slug ev.incident_id) ev))

  unfoldable pub dispatch_mattermost :
      EscalationTriggered → UserContact → Option TenantNotificationConfig → Io Desk (Unit {0})
  dispatch_mattermost ev contact none = no_webhook_log ev
  dispatch_mattermost ev contact (some cfg) =
      if not cfg.mattermost_enabled
      then pure tt
      else if webhook_url_usable conf cfg.mattermost_webhook_url
      then post_by ev contact cfg
      else no_webhook_log ev

  unfoldable pub dispatch_one :
      EscalationTriggered
      → UserContact
      → Option TenantNotificationConfig
      → String
      → Io Desk (Unit {0})
  dispatch_one ev contact cfg channel =
      if str_eq (conf.to_lower channel) "email"
      then dispatch_email ev contact cfg
      else if str_eq (conf.to_lower channel) "mattermost"
      then dispatch_mattermost ev contact cfg
      else pure tt

  -- The loop over `EnabledChannels`.
  unfoldable pub dispatch_all :
      EscalationTriggered
      → UserContact
      → Option TenantNotificationConfig
      → List String
      → Io Desk (Unit {0})
  dispatch_all ev contact cfg [] = pure tt
  dispatch_all ev contact cfg (channel ∷ rest) = do
    dispatch_one ev contact cfg channel
    dispatch_all ev contact cfg rest

  unfoldable pub dispatch_to_contact :
      EscalationTriggered → UserContact → Option TenantNotificationConfig → Io Desk (Unit {0})
  dispatch_to_contact ev contact cfg = dispatch_all ev contact cfg contact.enabled_channels

  -- ── Events

  -- The config, or none where it cannot be had.
  abbrev pub or_none :
      Result Err (Option TenantNotificationConfig) → Option TenantNotificationConfig
  or_none (ok cfg) = cfg
  or_none (err _) = none

  unfoldable pub notify_contact : EscalationTriggered → Result Err UserContact → Io Desk (Unit {0})
  notify_contact ev (err not_found) = pure tt
  notify_contact ev (err x) = raise x
  notify_contact ev (ok contact) = do
    r ← try (get conf.ttl ev.tenant_slug)
    dispatch_to_contact ev contact (or_none r)

  unfoldable pub notify_triggered : EscalationTriggered → Io Desk (Unit {0})
  notify_triggered ev =
      if str_eq ev.oncall_user_id ""
      then pure tt
      else do r ← try (get_contact ev.tenant_id ev.oncall_user_id); notify_contact ev r

  unfoldable pub post_exhausted :
      EscalationExhausted → TenantNotificationConfig → Io Desk (Unit {0})
  post_exhausted ev cfg = do
    r ←
        try (
          send_mattermost conf cfg.mattermost_webhook_url cfg.mattermost_channel
            (exhausted_text ev))
    note (
        log_of ev.incident_id ev.tenant_id "" "mattermost" (outcome_status r)
          cfg.mattermost_webhook_url (outcome_detail r))

  abbrev pub exhausted_no_webhook : EscalationExhausted → Io Desk (Unit {0})
  exhausted_no_webhook ev =
      note (log_of ev.incident_id ev.tenant_id "" "mattermost" "failed" "" no_webhook)

  unfoldable pub notify_exhausted_by :
      EscalationExhausted → Option TenantNotificationConfig → Io Desk (Unit {0})
  notify_exhausted_by ev none = exhausted_no_webhook ev
  notify_exhausted_by ev (some cfg) =
      if not cfg.mattermost_enabled
      then pure tt
      else if webhook_url_usable conf cfg.mattermost_webhook_url
      then post_exhausted ev cfg
      else exhausted_no_webhook ev

  unfoldable pub notify_exhausted : EscalationExhausted → Io Desk (Unit {0})
  notify_exhausted ev = do r ← try (get conf.ttl ev.tenant_slug); notify_exhausted_by ev (or_none r)
