-- ===== src/Scheduling/Handlers.antt =====
-- What the handlers of services/scheduling/internal/handler/handler.go share: the values that they
-- answer with, and the libraries that they call.
pub mod Shifts
pub mod Accounts
pub mod Configs
pub mod Requests
pub mod Sound
pub mod Kept
pub mod Untouched
pub mod Reachable
pub mod Agree
mod Tests
use sreon_call.Prelude.{ℕ, String, List, Bool, Option}
use sreon_call.Scheduling.Duration.{DurationError}
use sreon_call.Scheduling.Rotation.{TimeLib, Schedule, Override, Shift, RotationError}
use sreon_call.Scheduling.Roster.{Tenant, WebhookToken, NotificationConfig}

pub record Oncall : Type 0 where
  pub user_id : String
  pub username : String
  pub starts_at : ℕ
  pub ends_at : ℕ

pub record Member : Type 0 where
  pub user_id : String
  pub preferred_username : String
  pub role : String

pub data Payload : Type 0 where
  schedule : Schedule → Payload
  schedules : List Schedule → Payload
  oncall : Oncall → Payload
  override_made : Override → Payload
  overrides : List Override → Payload
  shifts : List Shift → Payload
  tenant : Tenant → Payload
  tenants : List Tenant → Payload
  members : List Member → Payload
  tokens : List WebhookToken → Payload
  token_made : WebhookToken → String → Payload
  config : NotificationConfig → Payload
  missing_fields : List String → Payload
  existing_override : String → ℕ → ℕ → Payload
  invalid_duration : DurationError → Payload
  no_rotation : RotationError → Payload

-- `time.Parse` of a date and of RFC 3339, beside what rotation.go uses; the hexadecimal SHA-256 of
-- `hashToken`; `ssrf.ValidateURL`; and what Keycloak answers about a tenant, where it is configured.
pub record Library : Type 1 where
  pub time : TimeLib
  pub parse_date : String → Option ℕ
  pub parse_rfc3339 : String → Option ℕ
  pub hash_token : String → String
  pub is_public_url : String → Bool
  pub members_of : Option (String → List Member)
