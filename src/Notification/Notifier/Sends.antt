-- ===== src/Notification/Notifier/Sends.antt =====
-- What may leave the service: the channels, the addresses and the switches that
-- services/notification/internal/notifier/notifier.go goes by.
use sreon_call.Prelude.{
  ◌≡◌, refl, String, str_eq, List, [], ◌∷◌, ◌++◌, Bool, true, false, not, ◌||◌, Option, none, some,
  All, arith,
}
use sreon_call.Effects.{Env, pure, gets}
use sreon_call.Effects.Evolves.{
  Evolves, Evolves-bind, Evolves-pure, Evolves-gets, Evolves-if, Evolves-if_known,
}
use sreon_call.Escalation.Types.{EscalationTriggered}
use sreon_call.Notification.Types.{
  UserContact, TenantNotificationConfig, EmailMessage, Outgoing, mail, post, Desk, Settings,
}
use sreon_call.Notification.Dispatcher.{raw_mail, send_email, send_mattermost}
use sreon_call.Notification.Texts.{webhook_url_usable}
use sreon_call.Notification.Notifier.{
  dispatch_email, dispatch_mattermost, dispatch_one, dispatch_all, dispatch_to_contact, email_by,
  configured_mail, post_by, no_webhook_log,
}
use sreon_call.Notification.Notifier.Appends.{
  Sends, Sends-Preorder, attempts-Sends, if_request-Sends, note-Sends, dispatch_channel-Sends,
}

-- A mail goes to the contact's address, which is there, and mail is not switched off for the tenant; a
-- post goes to the tenant's webhook, which is usable, and Mattermost is switched on.
abbrev pub Permitted : Settings → UserContact → Option TenantNotificationConfig → Outgoing → Type 0
Permitted conf contact none (mail from to raw) =
    (to ≡ contact.email) × (str_eq contact.email "" ≡ false)
Permitted conf contact (some cfg) (mail from to raw) =
    (to ≡ contact.email) × (str_eq contact.email "" ≡ false) × (cfg.email_enabled ≡ true)
Permitted conf contact none (post url channel text) = ⊥
Permitted conf contact (some cfg) (post url channel text) =
    (url ≡ cfg.mattermost_webhook_url)
    × (webhook_url_usable conf url ≡ true)
    × (cfg.mattermost_enabled ≡ true)

left_false : (a b : Bool) → (a || b) ≡ false → a ≡ false
left_false a b h = ground arith

right_false : (a b : Bool) → (a || b) ≡ false → b ≡ false
right_false a b h = ground arith

not-false : (b : Bool) → not b ≡ false → b ≡ true
not-false b h = ground arith

module _ (conf : Settings) (ev : EscalationTriggered) (contact : UserContact) where
  abbrev Only : Option TenantNotificationConfig → Desk → Desk → Type 0
  Only cfg = Sends (Permitted conf contact cfg)

  nothing : (cfg : Option TenantNotificationConfig) → Evolves (Only cfg) (pure tt)
  nothing cfg = Evolves-pure (Sends-Preorder (Permitted conf contact cfg)) tt

  email_by-Sends :
      (cfg : Option TenantNotificationConfig) (from : String) (msg : EmailMessage)
      → ((from raw : String) → Permitted conf contact cfg (mail from contact.email raw))
      → Evolves (Only cfg) (email_by conf ev contact from msg)
  unfolding send_email raw_mail
  email_by-Sends cfg from msg h =
      dispatch_channel-Sends (Permitted conf contact cfg) conf _ _ _ _ _ _ (
        Evolves-bind (Sends-Preorder (Permitted conf contact cfg)) (gets (λ s. s.clock)) _
          (Evolves-gets (Sends-Preorder (Permitted conf contact cfg)) _)
          λ now. attempts-Sends (Permitted conf contact cfg) 3 _ (h from _))

  dispatch_email-Sends :
      (cfg : Option TenantNotificationConfig)
      → Evolves (Only cfg) (dispatch_email conf ev contact cfg)
  unfolding dispatch_email
  dispatch_email-Sends none =
      Evolves-if_known (Sends-Preorder (Permitted conf contact none)) (str_eq contact.email "") _ _
        (λ empty. nothing none) λ full. email_by-Sends none _ _ (λ from raw. (refl, full))
  dispatch_email-Sends (some cfg) =
      Evolves-if_known (Sends-Preorder (Permitted conf contact (some cfg)))
        (str_eq contact.email "" || not cfg.email_enabled) _ (configured_mail conf ev contact cfg)
        (λ skipped. nothing (some cfg))
        λ on. email_by-Sends (some cfg) _ _ (λ from raw. (
          refl,
          left_false (str_eq contact.email "") (not cfg.email_enabled) on,
          not-false cfg.email_enabled
              (right_false (str_eq contact.email "") (not cfg.email_enabled) on),
        ))

  no_webhook-Sends :
      (cfg : Option TenantNotificationConfig) → Evolves (Only cfg) (no_webhook_log conf ev)
  no_webhook-Sends cfg = note-Sends (Permitted conf contact cfg) _

  dispatch_mattermost-Sends :
      (cfg : Option TenantNotificationConfig)
      → Evolves (Only cfg) (dispatch_mattermost conf ev contact cfg)
  unfolding dispatch_mattermost send_mattermost
  dispatch_mattermost-Sends none = no_webhook-Sends none
  dispatch_mattermost-Sends (some cfg) =
      Evolves-if_known (Sends-Preorder (Permitted conf contact (some cfg)))
        (not cfg.mattermost_enabled) _ _ (λ off. nothing (some cfg))
        λ on.
          Evolves-if_known (Sends-Preorder (Permitted conf contact (some cfg)))
            (webhook_url_usable conf cfg.mattermost_webhook_url) (post_by conf ev contact cfg) _
            (λ fit. dispatch_channel-Sends (Permitted conf contact (some cfg)) conf _ _ _ _ _ _ (
              if_request-Sends (Permitted conf contact (some cfg)) _ _ (
                attempts-Sends (Permitted conf contact (some cfg)) 3
                  (post cfg.mattermost_webhook_url cfg.mattermost_channel _)
                  (refl, fit, not-false cfg.mattermost_enabled on))))
            λ unfit. no_webhook-Sends (some cfg)

  dispatch_one-Sends :
      (cfg : Option TenantNotificationConfig) (channel : String)
      → Evolves (Only cfg) (dispatch_one conf ev contact cfg channel)
  unfolding dispatch_one
  dispatch_one-Sends cfg channel =
      Evolves-if (Sends-Preorder (Permitted conf contact cfg)) _ _ _ (dispatch_email-Sends cfg) (
        Evolves-if (Sends-Preorder (Permitted conf contact cfg)) _ _ _
          (dispatch_mattermost-Sends cfg) (nothing cfg))

  dispatch_all-Sends :
      (cfg : Option TenantNotificationConfig) (channels : List String)
      → Evolves (Only cfg) (dispatch_all conf ev contact cfg channels)
  unfolding dispatch_all
  dispatch_all-Sends cfg [] = nothing cfg
  dispatch_all-Sends cfg (channel ∷ rest) =
      Evolves-bind (Sends-Preorder (Permitted conf contact cfg)) _ _
        (dispatch_one-Sends cfg channel) λ _. dispatch_all-Sends cfg rest

-- Whatever fails, what is sent to a contact of an escalation is appended to what was sent before, and
-- each of it is permitted by the contact and by the tenant's config, with none where there is no config.
pub dispatch_to_contact-Permitted :
    (conf : Settings) (ev : EscalationTriggered) (contact : UserContact)
    (cfg : Option TenantNotificationConfig) (e : Env Desk)
    → (new : List Outgoing) × ((dispatch_to_contact conf ev contact cfg e).1.state.sent
        ≡ e.state.sent ++ new)
      × All (Permitted conf contact cfg) new
unfolding dispatch_to_contact
dispatch_to_contact-Permitted conf ev contact cfg e =
    (dispatch_all-Sends conf ev contact cfg contact.enabled_channels).at e
