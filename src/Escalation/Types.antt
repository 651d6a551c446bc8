-- ===== src/Escalation/Types.antt =====
-- The records of services/escalation/internal/domain/policy.go and of pkg/events/events.go, and what
-- the service reaches: the tables of services/escalation/migrations, the broker, the scheduling
-- service and the clock. An instant is a number of nanoseconds.
use sreon_call.Prelude.{ℕ, String, List, Option}
use sreon_call.Prelude.Int.{ℤ}

-- `timeout_seconds` is positive: the handler refuses others.
pub record PolicyTier : Type 0 where
  pub id : String
  pub policy_id : String
  pub tier_number : ℤ
  pub timeout_seconds : ℕ
  pub notify_schedule_id : String

pub record Policy : Type 0 where
  pub id : String
  pub tenant_id : String
  pub name : String
  pub tiers : List PolicyTier
  pub created_at : ℕ

pub record EscalationState : Type 0 where
  pub id : String
  pub incident_id : String
  pub tenant_id : String
  pub tenant_slug : String
  pub policy_id : String
  pub current_tier : ℤ
  pub status : String
  pub incident_title : String
  pub incident_severity : String
  pub incident_status : String
  pub escalate_at : ℕ
  pub created_at : ℕ
  pub updated_at : ℕ

pub record EscalationHistory : Type 0 where
  pub id : String
  pub incident_id : String
  pub tenant_id : String
  pub event_type : String
  pub tier : Option ℤ
  pub oncall_user_id : String
  pub oncall_username : String
  pub created_at : ℕ

pub record TenantConfig : Type 0 where
  pub tenant_id : String
  pub default_policy_id : Option String
  pub updated_at : ℕ

pub record EscalationTriggered : Type 0 where
  pub incident_id : String
  pub tenant_id : String
  pub tenant_slug : String
  pub tier : ℤ
  pub oncall_user_id : String
  pub oncall_username : String
  pub incident_title : String
  pub incident_severity : String
  pub incident_status : String

pub record EscalationExhausted : Type 0 where
  pub incident_id : String
  pub tenant_id : String
  pub tenant_slug : String

pub record IncidentChanged : Type 0 where
  pub incident_id : String
  pub tenant_id : String
  pub tenant_slug : String
  pub status : String
  pub title : String
  pub severity : String

pub data Event : Type 0 where
  triggered : EscalationTriggered → Event
  exhausted : EscalationExhausted → Event

pub record IncidentInfo : Type 0 where
  pub title : String
  pub severity : String
  pub status : String

-- The user and the username that the scheduling service gives for a tenant and a schedule.
pub record OncallResult : Type 0 where
  pub user_id : String
  pub username : String

-- Rows of `escalation.policies` have no tiers of their own: `tiers` is empty there. `uuid` is the
-- database's generator of ids, and `next_id` counts the ids that it has given.
pub record World : Type 0 where
  pub policies : List Policy
  pub tiers : List PolicyTier
  pub configs : List TenantConfig
  pub states : List EscalationState
  pub history : List EscalationHistory
  pub outbox : List Event
  pub on_call : String → String → Option OncallResult
  pub clock : ℕ
  pub next_id : ℕ
  pub uuid : ℕ → String
