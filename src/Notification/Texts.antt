-- ===== src/Notification/Texts.antt =====
-- The texts of services/notification/internal/notifier/notifier.go, and the webhooks it takes for usable.
use Prim.Native.String.{◌++◌ as ◌<>◌}
use text.Mathlib.Text.{find?}
use sreon_call.Prelude.{
  String, str_eq, Bool, true, false, not, ◌&&◌, ◌||◌, Option, none, some, if◌then◌else◌,
}
use sreon_call.Escalation.Types.{EscalationTriggered, EscalationExhausted}
use sreon_call.Notification.Types.{UserContact, Url, Settings}

abbrev pub mention_of : UserContact → String
mention_of contact =
    if str_eq contact.mattermost_username ""
    then ""
    else "@" <> (contact.mattermost_username <> " ")

abbrev pub exhausted_text : EscalationExhausted → String
exhausted_text ev =
    ":sos: Escalation exhausted for incident `" <> (ev.incident_id <> "` — no responders remain")

module _ (conf : Settings) where
  abbrev pub is_usable_url : Option Url → Bool
  is_usable_url none = false
  is_usable_url (some u) =
      not (str_eq u.scheme "" || str_eq u.host "") && not (str_eq u.path "" || str_eq u.path "/")

  abbrev pub is_masked : String → Bool
  is_masked raw = elim (find? raw "***") [ none ↦ false | some _ ↦ true ]

  unfoldable pub webhook_url_usable : String → Bool
  webhook_url_usable raw =
      if str_eq raw "" || is_masked raw then false else is_usable_url (conf.parse_url raw)

  unfoldable pub incident_link : String → String → String
  incident_link tenant_slug incident_id =
      if str_eq conf.frontend_base_url ""
      then ""
      else conf.frontend_base_url
        <> ("/" <> (tenant_slug <> ("/incidents?incident=" <> incident_id)))

  unfoldable pub mattermost_text : String → String → EscalationTriggered → String
  mattermost_text mention link ev =
      (if str_eq ev.incident_title ""
        then mention
          <> (":rotating_light: Incident `"
              <> (ev.incident_id
                  <> ("` escalated to tier " <> (conf.format_int ev.tier <> " — you are on call"))))
        else mention
          <> (":rotating_light: ["
              <> (ev.incident_severity
                  <> ("] "
                      <> (ev.incident_title
                          <> ("\nIncident `"
                              <> (ev.incident_id
                                  <> ("` — status "
                                      <> (ev.incident_status
                                          <> (", tier "
                                              <> (conf.format_int ev.tier
                                                  <> " — you are on call")))))))))))
      <> (if str_eq link "" then "" else "\n" <> link)
