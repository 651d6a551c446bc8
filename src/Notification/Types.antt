-- ===== src/Notification/Types.antt =====
-- The records of services/notification/internal/domain/domain.go, of
-- services/notification/internal/schedclient/client.go and of dispatcher/email.go, and what the service
-- reaches: its tables, Redis, its own cache, the scheduling service and the channels.
use sreon_call.Prelude.{ℕ, String, List, Option, Bool}
use sreon_call.Prelude.Int.{ℤ}
use sreon_call.Effects.{Err}

pub record UserContact : Type 0 where
  pub id : String
  pub user_id : String
  pub tenant_id : String
  pub email : String
  pub mattermost_username : String
  pub enabled_channels : List String
  pub created_at : ℕ
  pub updated_at : ℕ

pub record NotificationLog : Type 0 where
  pub id : String
  pub incident_id : String
  pub tenant_id : String
  pub user_id : String
  pub channel : String
  pub status : String
  pub recipient : String
  pub error_detail : String
  pub created_at : ℕ

pub record TenantNotificationConfig : Type 0 where
  pub mattermost_enabled : Bool
  pub mattermost_webhook_url : String
  pub mattermost_channel : String
  pub smtp_from : String
  pub email_enabled : Bool
  pub email_reply_to : String
  pub email_subject_prefix : String

pub record EmailMessage : Type 0 where
  pub incident_id : String
  pub tenant_id : String
  pub title : String
  pub severity : String
  pub status : String
  pub tier : ℤ
  pub link : String
  pub reply_to : String
  pub subject_prefix : String

-- What leaves the service: a mail with its sender, its receiver and its text, or a post to a webhook.
pub data Outgoing : Type 0 where
  mail : String → String → String → Outgoing
  post : String → String → String → Outgoing

-- The Redis hash of one key of the limiter, in seconds, with the instant at which Redis drops it.
pub record Bucket : Type 0 where
  pub key : String
  pub tokens : ℕ
  pub last_refill : ℕ
  pub expires_at : ℕ

-- A config that was read, or that the scheduling service has none, with the instant at which it goes.
pub record CacheEntry : Type 0 where
  pub slug : String
  pub cfg : Option TenantNotificationConfig
  pub expires_at : ℕ

-- `configs` is what the scheduling service answers at an instant about a tenant. `clock` is in
-- nanoseconds.
pub record Desk : Type 0 where
  pub contacts : List UserContact
  pub logs : List NotificationLog
  pub buckets : List Bucket
  pub cache : List CacheEntry
  pub sent : List Outgoing
  pub configs : ℕ → String → Option TenantNotificationConfig
  pub clock : ℕ
  pub next_id : ℕ
  pub uuid : ℕ → String

-- The parts of an address that net/url finds.
pub record Url : Type 0 where
  pub scheme : String
  pub host : String
  pub path : String

-- What the service is started with, and the packages strings, strconv, time and net/url as far as it
-- uses them.
pub record Settings : Type 0 where
  pub smtp_from : String
  pub frontend_base_url : String
  pub max : ℕ
  pub window : ℕ
  pub ttl : ℕ
  pub to_lower : String → String
  pub format_int : ℤ → String
  pub format_time : ℕ → String
  pub parse_url : String → Option Url
  pub error_text : Err → String
