-- ===== src/Escalation/Tests.antt =====
-- Runs of the escalation service (services/escalation) at concrete inputs, and the theorems applied
-- there.
use sreon_call.Prelude.{ok, suc, ◌≤◌, ◌≡◌, refl, List, [], ◌∷◌, Bool, false, true, some, length}
use sreon_call.Prelude.Int.{pos}
use sreon_call.Effects.{◌>>=◌, try, call, gets, with_tx, pure, raise}
use sreon_call.Escalation.Types.{
  PolicyTier, Policy, EscalationState, TenantConfig, IncidentChanged, World,
}
use sreon_call.Escalation.Policies.{get_tier_by_number}
use sreon_call.Escalation.States.{advance_escalation_state, claim_state, append_history}
use sreon_call.Escalation.Escalator.{
  advance_or_exhaust, go_on, advance_to, after_claim, trigger_tier, resolve_on_call, publish,
  exhaust, get_on_call,
}
use sreon_call.Escalation.Claim.{workers, workers_publish_once, advance_or_exhaust-stale}
use sreon_call.Escalation.Delivery.{workers_publish_exactly_once}

abbrev second_tier : PolicyTier
second_tier = record {
  id = "t2";
  policy_id = "p1";
  tier_number = pos 2;
  timeout_seconds = 300;
  notify_schedule_id = "night";
}

abbrev policy : Policy
policy = record { id = "p1"; tenant_id = "acme"; name = "default"; tiers = []; created_at = 0 }

abbrev read_state : EscalationState
read_state = record {
  id = "e1";
  incident_id = "i1";
  tenant_id = "acme";
  tenant_slug = "acme";
  policy_id = "p1";
  current_tier = pos 1;
  status = "active";
  incident_title = "disk full";
  incident_severity = "critical";
  incident_status = "open";
  escalate_at = 5;
  created_at = 0;
  updated_at = 0;
}

abbrev pub default_of_acme : TenantConfig
default_of_acme = record { tenant_id = "acme"; default_policy_id = some "p1"; updated_at = 0 }

abbrev pub world : World
world = record {
  policies = policy ∷ [];
  tiers = second_tier ∷ [];
  configs = default_of_acme ∷ [];
  states = read_state ∷ [];
  history = [];
  outbox = [];
  on_call = λ tenant schedule. some (record { user_id = "u1"; username = "ann" });
  clock = 10;
  next_id = 0;
  uuid = λ n. "fresh";
}

-- Two workers, of which the first meets a failing commit.
abbrev two_workers : List (List Bool)
two_workers = (false ∷ false ∷ false ∷ true ∷ []) ∷ [] ∷ []

two_workers_publish : length (workers read_state two_workers world).outbox ≡ 1
unfolding advance_or_exhaust ◌>>=◌ try go_on get_tier_by_number call advance_to gets after_claim
    advance_escalation_state with_tx claim_state pure raise trigger_tier resolve_on_call publish
    exhaust get_on_call append_history
two_workers_publish = refl

workers_publish_once_example :
    length (workers read_state two_workers world).outbox ≤ suc (length world.outbox)
workers_publish_once_example = workers_publish_once read_state two_workers world

abbrev acknowledged_world : World
acknowledged_world = record world { states = record read_state { status = "acknowledged" } ∷ [] }

advance_or_exhaust-stale_example :
    (advance_or_exhaust read_state (record { state = acknowledged_world; faults = [] })).1.state
    ≡ acknowledged_world
advance_or_exhaust-stale_example =
    advance_or_exhaust-stale read_state (record { state = acknowledged_world; faults = [] }) refl

abbrev pub created : IncidentChanged
created = record {
  incident_id = "i1";
  tenant_id = "acme";
  tenant_slug = "acme";
  status = "open";
  title = "disk full";
  severity = "critical";
}

workers_publish_exactly_once_example :
    ((advance_or_exhaust read_state (record { state = world; faults = [] })).0 ≡ ok tt)
    × (length (workers read_state ([] ∷ two_workers) world).outbox ≡ suc (length world.outbox))
workers_publish_exactly_once_example =
    workers_publish_exactly_once read_state two_workers world refl
