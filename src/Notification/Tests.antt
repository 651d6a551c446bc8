-- ===== src/Notification/Tests.antt =====
-- Runs of the notification service (services/notification) at concrete inputs, and the theorems applied
-- there.
use sreon_call.Prelude.{
  ℕ, ◌+◌, ◌≤◌, ◌≡◌, refl, List, [], ◌∷◌, ◌++◌, false, true, none, some, ok, err, arith, All,
}
use sreon_call.Prelude.Int.{pos}
use sreon_call.Effects.{Env, cancelled, call, pure, raise, try, gets, ◌>>=◌}
use sreon_call.Escalation.Types.{EscalationTriggered}
use sreon_call.Notification.Types.{
  UserContact, TenantNotificationConfig, EmailMessage, Desk, Settings, Outgoing, post,
}
use sreon_call.Notification.RateLimit.{refill, take_token}
use sreon_call.Notification.RateLimit.Bound.{passed, passed_in_window, tokens_left}
use sreon_call.Notification.TenantCache.{
  get, serve, fetch, remember, get_tenant_notification_config,
}
use sreon_call.Notification.TenantCache.Fresh.{
  IsTrueCache, Reach, here, next, serves, passes, Reach-IsTrueCache, get_age,
}
use sreon_call.Notification.Dispatcher.{
  attempt, wait, attempts, raw_mail, send_email, send_mattermost,
}
use sreon_call.Notification.Dispatcher.Attempts.{attempts_lem, after_parse, ended, outcome}
use sreon_call.Notification.Notifier.{dispatch_to_contact}
use sreon_call.Notification.Notifier.Sends.{Permitted, dispatch_to_contact-Permitted}

-- ── The limiter: a limit of two in ten seconds

passed_in_window_example : passed 2 10 none (0 ∷ 1 ∷ 5 ∷ []) ≤ tokens_left none + 2
passed_in_window_example =
    passed_in_window 2 10 0 none (0 ∷ 1 ∷ 5 ∷ [])
      ((omega arith, omega arith), ((omega arith, omega arith), ((omega arith, omega arith), tt)))

-- A window that begins late in the life of a bucket lets pass more than the limit.
three_in_a_window :
    passed 2 10 (some (record { tokens = 1; last_refill = 0 })) (9 ∷ 10 ∷ 11 ∷ []) ≡ 3
unfolding passed take_token refill
three_in_a_window = refl

-- ── The service

abbrev config : TenantNotificationConfig
config = record {
  mattermost_enabled = true;
  mattermost_webhook_url = "https://chat/hooks/1";
  mattermost_channel = "ops";
  smtp_from = "";
  email_enabled = false;
  email_reply_to = "";
  email_subject_prefix = "";
}

abbrev pub desk : Desk
desk = record {
  contacts = [];
  logs = [];
  buckets = [];
  cache = [];
  sent = [];
  configs = λ clock slug. some config;
  clock = 20;
  next_id = 0;
  uuid = λ n. "fresh";
}

abbrev pub settings : Settings
settings = record {
  smtp_from = "oncall@example.org";
  frontend_base_url = "https://oncall";
  max = 2;
  window = 10;
  ttl = 60;
  to_lower = λ s. s;
  format_int = λ n. "1";
  format_time = λ t. "now";
  parse_url = λ raw. some (record { scheme = "https"; host = "chat"; path = "/hooks/1" });
  error_text = λ x. "failed";
}

abbrev asked : Desk
asked = (get 60 "acme" (record { state = desk; faults = [] })).1.state

abbrev later : Desk
later = record asked { clock = 50 }

waited : asked.clock ≤ 50
unfolding get gets serve fetch get_tenant_notification_config remember call ◌>>=◌
waited = omega arith

abbrev run : Reach 60 desk later
run = next (next here (serves "acme" [] desk)) (passes asked 50 waited)

Reach-IsTrueCache_example : IsTrueCache 60 later
Reach-IsTrueCache_example = Reach-IsTrueCache refl run

-- The answer of the cache while the scheduling service fails.
cached : (get 60 "acme" (record { state = later; faults = true ∷ [] })).0 ≡ ok (some config)
unfolding get gets serve fetch get_tenant_notification_config remember call ◌>>=◌ pure
cached = refl

get_age_example : (at : ℕ) × (at ≤ 50) × (50 ≤ at + 60) × (some config ≡ later.configs at "acme")
get_age_example = get_age 60 "acme" desk later (true ∷ []) (some config) refl run cached

abbrev message : EmailMessage
message = record {
  incident_id = "i1";
  tenant_id = "acme";
  title = "disk full";
  severity = "critical";
  status = "open";
  tier = pos 1;
  link = "";
  reply_to = "";
  subject_prefix = "";
}

attempts_lem_example :
    let e : Env Desk = record { state = desk; faults = true ∷ false ∷ true ∷ true ∷ [] } in
    (outcome (send_email settings "a@b" "c@d" message e)
      ≡ ended 2
          (raw_mail settings "a@b" "c@d" message desk.clock)
          desk
          (true ∷ false ∷ true ∷ true ∷ []))
    × (outcome (send_mattermost settings "u" "ops" "hi" e)
        ≡ after_parse
            (settings.parse_url "u")
            (ended 2 (post "u" "ops" "hi") desk (true ∷ false ∷ true ∷ true ∷ []))
            desk)
attempts_lem_example =
    attempts_lem settings "a@b" "c@d" message "u" "ops" "hi" desk (true ∷ false ∷ true ∷ true ∷ [])

-- A context that is cancelled in the second wait ends the sending.
cancelled_in_wait :
    (attempts 3
      (post "u" "ops" "hi")
      (record { state = desk; faults = true ∷ false ∷ true ∷ true ∷ [] })).0
    ≡ err cancelled
unfolding attempts attempt wait call pure raise try ◌>>=◌
cancelled_in_wait = refl

abbrev pub event : EscalationTriggered
event = record {
  incident_id = "i1";
  tenant_id = "acme";
  tenant_slug = "acme";
  tier = pos 1;
  oncall_user_id = "u1";
  oncall_username = "ann";
  incident_title = "disk full";
  incident_severity = "critical";
  incident_status = "open";
}

abbrev ann : UserContact
ann = record {
  id = "c1";
  user_id = "u1";
  tenant_id = "acme";
  email = "ann@example.org";
  mattermost_username = "ann";
  enabled_channels = "email" ∷ "mattermost" ∷ [];
  created_at = 0;
  updated_at = 0;
}

dispatch_to_contact-Permitted_example :
    (new : List Outgoing) × ((dispatch_to_contact settings event ann
        (some config)
        (record { state = desk; faults = [] })).1.state.sent
      ≡ [] ++ new)
    × All (Permitted settings ann (some config)) new
dispatch_to_contact-Permitted_example =
    dispatch_to_contact-Permitted settings event ann (some config)
      (record { state = desk; faults = [] })
