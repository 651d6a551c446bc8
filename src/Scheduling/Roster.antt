-- ===== src/Scheduling/Roster.antt =====
-- The records of services/scheduling/internal/domain/schedule.go and of store/store.go beside it, the
-- tables of services/scheduling/migrations and the token index in Redis. Instants in the tables are as
-- exact as the program's.
pub mod Schedules
pub mod Tenants
pub mod TokenIndex
use sreon_call.Prelude.{ℕ, String, List, Bool}
use sreon_call.Scheduling.Rotation.{Schedule, Override}

pub record Tenant : Type 0 where
  pub id : String
  pub slug : String
  pub name : String
  pub created_at : ℕ

pub record WebhookToken : Type 0 where
  pub id : String
  pub tenant_id : String
  pub source : String
  pub created_at : ℕ

-- A row: the token is known by its hash.
pub record TokenRow : Type 0 where
  pub token : WebhookToken
  pub token_hash : String

pub record TokenHashEntry : Type 0 where
  pub hash : String
  pub tenant_id : String

pub record User : Type 0 where
  pub sub : String
  pub preferred_username : String
  pub name : String
  pub email : String
  pub last_seen_at : ℕ

pub record NotificationConfig : Type 0 where
  pub tenant_id : String
  pub mattermost_enabled : Bool
  pub mattermost_webhook_url : String
  pub mattermost_channel : String
  pub smtp_from : String
  pub email_enabled : Bool
  pub email_reply_to : String
  pub email_subject_prefix : String

-- `index` holds `oncall:tokens:{hash}` without its prefix.
pub record Roster : Type 0 where
  pub schedules : List Schedule
  pub overrides : List Override
  pub tenants : List Tenant
  pub tokens : List TokenRow
  pub users : List User
  pub configs : List NotificationConfig
  pub index : List TokenHashEntry
  pub clock : ℕ
  pub next_id : ℕ
  pub uuid : ℕ → String
