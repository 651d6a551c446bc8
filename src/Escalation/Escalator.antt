-- ===== src/Escalation/Escalator.antt =====
-- services/escalation/internal/escalator/escalator.go. Metrics and logs are left out; errors keep
-- what `errors.Is` tells apart.
use sreon_call.Prelude.{
  ℕ, ◌+◌, ◌*◌, String, str_eq, List, [], ◌∷◌, ◌++◌, Option, none, some, if◌then◌else◌, Result, ok,
  err,
}
use sreon_call.Prelude.Int.{ℤ, suc_ℤ}
use sreon_call.Effects.{
  Err, not_found, conflict, failed, Io, call, pure, raise, try, gets, ◌>>=◌, ◌>>◌,
}
use sreon_call.Escalation.Types.{
  PolicyTier, EscalationState, EscalationHistory, Event, triggered, exhausted, IncidentInfo,
  OncallResult, TenantConfig, World,
}
use sreon_call.Escalation.Policies.{get_policy, get_tier_by_number, get_tenant_config, found}
use sreon_call.Escalation.States.{
  create_escalation_state, get_escalation_state_by_incident, update_escalation_state,
  advance_escalation_state, append_history,
}

-- `time.Duration(n) * time.Second`.
abbrev pub seconds : ℕ → ℕ
seconds n = n * 1_000_000_000

abbrev pub publish_event : Event → World → Result Err (Unit {0}) × World
publish_event ev s = (ok tt, record s { outbox = s.outbox ++ (ev ∷ []) })

unfoldable pub publish : Event → Io World (Unit {0})
publish ev = call (publish_event ev)

unfoldable pub get_on_call : String → String → Io World OncallResult
get_on_call tenant_slug schedule_id = call λ s. (found (s.on_call tenant_slug schedule_id), s)

-- A history entry that is not yet a row.
abbrev pub entry : EscalationState → String → ℤ → OncallResult → EscalationHistory
entry st event_type tier who = record {
  id = "";
  incident_id = st.incident_id;
  tenant_id = st.tenant_id;
  event_type = event_type;
  tier = some tier;
  oncall_user_id = who.user_id;
  oncall_username = who.username;
  created_at = 0;
}

abbrev pub nobody : OncallResult
nobody = record { user_id = ""; username = "" }

abbrev pub answer_or_nobody : Result Err OncallResult → OncallResult
answer_or_nobody (ok r) = r
answer_or_nobody (err x) = nobody

-- Who is told: nobody where the tier names no schedule or the scheduling service does not answer.
unfoldable pub resolve_on_call : EscalationState → PolicyTier → Io World OncallResult
resolve_on_call st tier =
    if str_eq tier.notify_schedule_id ""
    then pure nobody
    else do r ← try (get_on_call st.tenant_slug tier.notify_schedule_id); pure (answer_or_nobody r)

abbrev pub triggered_event : EscalationState → ℤ → OncallResult → Event
triggered_event st tier who = triggered (record {
  incident_id = st.incident_id;
  tenant_id = st.tenant_id;
  tenant_slug = st.tenant_slug;
  tier = tier;
  oncall_user_id = who.user_id;
  oncall_username = who.username;
  incident_title = st.incident_title;
  incident_severity = st.incident_severity;
  incident_status = st.incident_status;
})

abbrev pub exhausted_event : EscalationState → Event
exhausted_event st = exhausted (record {
  incident_id = st.incident_id;
  tenant_id = st.tenant_id;
  tenant_slug = st.tenant_slug;
})

unfoldable pub trigger_tier : EscalationState → PolicyTier → Io World (Unit {0})
trigger_tier st tier = do
  who ← resolve_on_call st tier
  try (append_history (entry st "triggered" tier.tier_number who))
  publish (triggered_event st tier.tier_number who)

-- `policy.Tiers[0]` with the time out that it starts, or the error of a policy with no tiers.
unfoldable pub start_at_first :
    String → String → String → String → IncidentInfo → List PolicyTier → Io World (Unit {0})
start_at_first tenant_id tenant_slug incident_id policy_id inc [] = raise failed
start_at_first tenant_id tenant_slug incident_id policy_id inc (tier1 ∷ _) = do
  now ← gets (λ s. s.clock)
  st ← create_escalation_state (record {
    id = "";
    incident_id = incident_id;
    tenant_id = tenant_id;
    tenant_slug = tenant_slug;
    policy_id = policy_id;
    current_tier = tier1.tier_number;
    status = "";
    incident_title = inc.title;
    incident_severity = inc.severity;
    incident_status = inc.status;
    escalate_at = now + seconds tier1.timeout_seconds;
    created_at = 0;
    updated_at = 0;
  })
  try (trigger_tier st tier1)
  pure tt

unfoldable pub assign_policy :
    String → String → String → String → IncidentInfo → Io World (Unit {0})
assign_policy tenant_id tenant_slug incident_id policy_id inc = do
  policy ← get_policy tenant_id policy_id
  start_at_first tenant_id tenant_slug incident_id policy_id inc policy.tiers

-- What follows the guarded write: a lost race ends without an error and without `next`.
unfoldable pub after_claim : Result Err (Unit {0}) → Io World (Unit {0}) → Io World (Unit {0})
after_claim (ok _) next = next
after_claim (err conflict) next = pure tt
after_claim (err x) next = raise x

unfoldable pub exhaust : EscalationState → Io World (Unit {0})
exhaust st = do
  now ← gets (λ s. s.clock)
  r ← try (
      advance_escalation_state (record st { status = "exhausted"; escalate_at = now })
        st.current_tier "active" (some (entry st "exhausted" st.current_tier nobody)))
  after_claim r (do try (publish (exhausted_event st)); pure tt)

unfoldable pub advance_to : EscalationState → PolicyTier → Io World (Unit {0})
advance_to st tier = do
  now ← gets (λ s. s.clock)
  let st' = record st {
    current_tier = tier.tier_number;
    escalate_at = now + seconds tier.timeout_seconds;
  }
  r ← try (advance_escalation_state st' st.current_tier "active" none)
  after_claim r (do try (trigger_tier st' tier); pure tt)

-- By the outcome of `GetTierByNumber`.
unfoldable pub go_on : EscalationState → Result Err PolicyTier → Io World (Unit {0})
go_on st (err not_found) = exhaust st
go_on st (err x) = raise x
go_on st (ok tier) = advance_to st tier

unfoldable pub advance_or_exhaust : EscalationState → Io World (Unit {0})
advance_or_exhaust st = do
  next ← try (get_tier_by_number st.policy_id (suc_ℤ st.current_tier))
  go_on st next

-- The write of `Stop`, for a state that is active.
unfoldable pub stop_active : EscalationState → String → Io World (Unit {0})
stop_active st reason = do
  now ← gets (λ s. s.clock)
  update_escalation_state (record st { status = reason; escalate_at = now })
  try (append_history (entry st reason st.current_tier nobody))
  pure tt

unfoldable pub stop_found : Result Err EscalationState → String → Io World (Unit {0})
stop_found (err not_found) reason = pure tt
stop_found (err x) reason = raise x
stop_found (ok st) reason = if str_eq st.status "active" then stop_active st reason else pure tt

unfoldable pub stop : String → String → String → Io World (Unit {0})
stop tenant_id incident_id reason = do
  r ← try (get_escalation_state_by_incident tenant_id incident_id)
  stop_found r reason

unfoldable pub manual_escalate : String → String → Io World (Unit {0})
manual_escalate tenant_id incident_id = do
  st ← get_escalation_state_by_incident tenant_id incident_id
  if str_eq st.status "active" then advance_or_exhaust st else raise failed

abbrev pub assign_default :
    String → String → String → IncidentInfo → Option String → Io World (Unit {0})
assign_default tenant_id tenant_slug incident_id inc none = pure tt
assign_default tenant_id tenant_slug incident_id inc (some policy_id) =
    assign_policy tenant_id tenant_slug incident_id policy_id inc

-- By the outcome of `GetTenantConfig`.
abbrev pub assign_configured :
    String → String → String → IncidentInfo → Result Err TenantConfig → Io World (Unit {0})
assign_configured tenant_id tenant_slug incident_id inc (err not_found) = pure tt
assign_configured tenant_id tenant_slug incident_id inc (err x) = raise x
assign_configured tenant_id tenant_slug incident_id inc (ok c) =
    assign_default tenant_id tenant_slug incident_id inc c.default_policy_id

unfoldable pub auto_assign : String → String → String → IncidentInfo → Io World (Unit {0})
auto_assign tenant_id tenant_slug incident_id inc = do
  cfg ← try (get_tenant_config tenant_id)
  assign_configured tenant_id tenant_slug incident_id inc cfg
