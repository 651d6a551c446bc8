-- ===== src/Escalation/Handler/Others.antt =====
-- What the service does beside the creation and the deletion of policies leaves the tiers as they are
-- (services/escalation/internal/escalator/escalator.go, handler/handler.go, consumer/consumer.go and
-- monitor/monitor.go).
use sreon_call.Prelude.{
  ℕ, inl, inr, String, List, [], ◌∷◌, not, Option, none, some, Bool-cases, any, Result, ok, err,
}
use sreon_call.Prelude.Int.{ℤ}
use sreon_call.Effects.{Err, not_found, conflict, failed, cancelled, dropped, Io, call}
use sreon_call.Effects.Evolves.{
  Evolves, Preorder, Evolves-call, Evolves-bind, Evolves-try, Evolves-pure, Evolves-raise,
  Evolves-with_tx, Evolves-result, evolves_rules,
}
use sreon_call.Effects.Http.Rules.{http_rules, Evolves-reply}
use sreon_call.Escalation.Types.{
  PolicyTier, Policy, EscalationState, EscalationHistory, TenantConfig, IncidentInfo,
  IncidentChanged, Event, World,
}
use sreon_call.Escalation.Policies
use sreon_call.Escalation.Policies.{
  list_tiers, select_policy, select_policies, load_tiers, get_tier_by_number, get_tenant_config,
  upsert_tenant_config, delete_tenant_config, policy_exists, config_of,
}
use sreon_call.Escalation.States.{
  create_escalation_state, get_escalation_state_by_incident, list_escalation_states_by_incidents,
  update_escalation_state, claim_state, append_history, maybe_append, advance_escalation_state,
  list_expired_states, list_history,
}
use sreon_call.Escalation.Escalator
use sreon_call.Escalation.Escalator.{
  publish, publish_event, get_on_call, resolve_on_call, trigger_tier, start_at_first, assign_policy,
  after_claim, exhaust, advance_to, go_on, advance_or_exhaust, stop_active, stop_found, stop,
  assign_default, assign_configured, auto_assign,
}
use sreon_call.Escalation.Worker.{handle_payload, handle, advance_all, step}
use sreon_call.Escalation.Handler.Timed.{Keeps, Keeps-Preorder, IsTimed, either}

-- ── The store

pub reading : {A : Type 0} (g : World → Result Err A) → Evolves Keeps (call (λ s. (g s, s)))
reading g = Evolves-call Keeps-Preorder _ (λ s h. h)

pub create_state-Keeps : (st : EscalationState) → Evolves Keeps (create_escalation_state st)
unfolding create_escalation_state
create_state-Keeps st = Evolves-call Keeps-Preorder _ (λ s h. either _ _ _ h h)

pub get_state-Keeps : (a b : String) → Evolves Keeps (get_escalation_state_by_incident a b)
unfolding get_escalation_state_by_incident
get_state-Keeps a b = reading _

pub list_states-Keeps :
    (a : String) (ids : List String) → Evolves Keeps (list_escalation_states_by_incidents a ids)
unfolding list_escalation_states_by_incidents
list_states-Keeps a [] = Evolves-pure Keeps-Preorder _
list_states-Keeps a (i ∷ is) = reading _

pub update_state-Keeps : (st : EscalationState) → Evolves Keeps (update_escalation_state st)
unfolding update_escalation_state
update_state-Keeps st = Evolves-call Keeps-Preorder _ (λ s h. h)

pub claim-Keeps :
    (st : EscalationState) (n : ℤ) (status : String) → Evolves Keeps (claim_state st n status)
unfolding claim_state
claim-Keeps st n status = Evolves-call Keeps-Preorder _ (λ s h. h)

pub append_history-Keeps : (h : EscalationHistory) → Evolves Keeps (append_history h)
unfolding append_history
append_history-Keeps h = Evolves-call Keeps-Preorder _ (λ s k. k)

pub maybe_append-Keeps : (h : Option EscalationHistory) → Evolves Keeps (maybe_append h)
maybe_append-Keeps none = Evolves-pure Keeps-Preorder _
maybe_append-Keeps (some h) = append_history-Keeps h

pub advance_state-Keeps :
    (st : EscalationState) (n : ℤ) (status : String) (h : Option EscalationHistory)
    → Evolves Keeps (advance_escalation_state st n status h)
unfolding advance_escalation_state
advance_state-Keeps st n status h =
    search (evolves_rules, Keeps-Preorder, claim-Keeps, maybe_append-Keeps)

pub list_expired-Keeps : (n : ℕ) → Evolves Keeps (list_expired_states n)
unfolding list_expired_states
list_expired-Keeps n = reading _

pub list_history-Keeps : (a b : String) → Evolves Keeps (list_history a b)
unfolding list_history
list_history-Keeps a b = reading _

pub list_tiers-Keeps : (id : String) → Evolves Keeps (list_tiers id)
unfolding list_tiers
list_tiers-Keeps id = reading _

pub get_policy-Keeps : (a b : String) → Evolves Keeps (Policies.get_policy a b)
unfolding Policies.get_policy select_policy
get_policy-Keeps a b = search (evolves_rules, Keeps-Preorder, reading, list_tiers-Keeps)

pub load_tiers-Keeps : (ps : List Policy) → Evolves Keeps (load_tiers ps)
unfolding load_tiers
load_tiers-Keeps [] = Evolves-pure Keeps-Preorder _
load_tiers-Keeps (p ∷ ps) = Evolves-bind Keeps-Preorder _ _ (list_tiers-Keeps p.id) λ tiers.
    Evolves-bind Keeps-Preorder _ _ (load_tiers-Keeps ps) λ rest. Evolves-pure Keeps-Preorder _

pub list_policies-Keeps : (a : String) → Evolves Keeps (Policies.list_policies a)
unfolding Policies.list_policies select_policies
list_policies-Keeps a = search (evolves_rules, Keeps-Preorder, reading, load_tiers-Keeps)

pub get_tier-Keeps : (id : String) (n : ℤ) → Evolves Keeps (get_tier_by_number id n)
unfolding get_tier_by_number
get_tier-Keeps id n = reading _

pub get_config-Keeps : (a : String) → Evolves Keeps (get_tenant_config a)
unfolding get_tenant_config
get_config-Keeps a = reading _

pub upsert_config-Keeps : (c : TenantConfig) → Evolves Keeps (upsert_tenant_config c)
unfolding upsert_tenant_config
upsert_config-Keeps c = Evolves-call Keeps-Preorder _ (λ s h.
    elim (Bool-cases (not (policy_exists s.policies c.default_policy_id))) [
      | inl unknown ↦ rw unknown h
      | inr known ↦ elim (Bool-cases (any (config_of c.tenant_id) s.configs)) [
        | inl old ↦ rw known (rw old h)
        | inr new ↦ rw known (rw new h)
      ]
    ])

pub delete_config-Keeps : (a : String) → Evolves Keeps (delete_tenant_config a)
unfolding delete_tenant_config
delete_config-Keeps a = Evolves-call Keeps-Preorder _ (λ s h. h)

-- ── The escalator

pub publish-Keeps : (e : Event) → Evolves Keeps (publish e)
unfolding publish
publish-Keeps e = Evolves-call Keeps-Preorder _ (λ s h. h)

pub get_on_call-Keeps : (a b : String) → Evolves Keeps (get_on_call a b)
unfolding get_on_call
get_on_call-Keeps a b = reading _

pub ruleset kept_rules = (
  evolves_rules, http_rules, Keeps-Preorder, reading, create_state-Keeps, get_state-Keeps,
  list_states-Keeps, update_state-Keeps, append_history-Keeps, advance_state-Keeps,
  list_expired-Keeps, list_history-Keeps, get_policy-Keeps, list_policies-Keeps, get_tier-Keeps,
  get_config-Keeps, upsert_config-Keeps, delete_config-Keeps, publish-Keeps, get_on_call-Keeps,
)

pub resolve-Keeps :
    (st : EscalationState) (tier : PolicyTier) → Evolves Keeps (resolve_on_call st tier)
unfolding resolve_on_call
resolve-Keeps st tier = search (kept_rules)

pub trigger-Keeps :
    (st : EscalationState) (tier : PolicyTier) → Evolves Keeps (trigger_tier st tier)
unfolding trigger_tier
trigger-Keeps st tier = search (kept_rules, resolve-Keeps) depth 9

pub start-Keeps :
    (a b c d : String) (inc : IncidentInfo) (tiers : List PolicyTier)
    → Evolves Keeps (start_at_first a b c d inc tiers)
unfolding start_at_first
start-Keeps a b c d inc [] = search (kept_rules)
start-Keeps a b c d inc (t ∷ ts) = search (kept_rules, trigger-Keeps) depth 9

pub assign_policy-Keeps :
    (a b c d : String) (inc : IncidentInfo) → Evolves Keeps (assign_policy a b c d inc)
unfolding assign_policy
assign_policy-Keeps a b c d inc = search (kept_rules, start-Keeps)

pub after_claim-Keeps :
    (r : Result Err (Unit {0})) (next : Io World (Unit {0}))
    → Evolves Keeps next
    → Evolves Keeps (after_claim r next)
unfolding after_claim
after_claim-Keeps (ok u) next h = h
after_claim-Keeps (err conflict) next h = search (kept_rules)
after_claim-Keeps (err not_found) next h = search (kept_rules)
after_claim-Keeps (err failed) next h = search (kept_rules)
after_claim-Keeps (err dropped) next h = search (kept_rules)
after_claim-Keeps (err cancelled) next h = search (kept_rules)

pub exhaust-Keeps : (st : EscalationState) → Evolves Keeps (exhaust st)
unfolding exhaust
exhaust-Keeps st = search (kept_rules, after_claim-Keeps) depth 9

pub advance_to-Keeps :
    (st : EscalationState) (tier : PolicyTier) → Evolves Keeps (advance_to st tier)
unfolding advance_to
advance_to-Keeps st tier = search (kept_rules, after_claim-Keeps, trigger-Keeps) depth 9

pub go_on-Keeps : (st : EscalationState) (r : Result Err PolicyTier) → Evolves Keeps (go_on st r)
unfolding go_on
go_on-Keeps st (ok tier) = advance_to-Keeps st tier
go_on-Keeps st (err not_found) = exhaust-Keeps st
go_on-Keeps st (err conflict) = search (kept_rules)
go_on-Keeps st (err failed) = search (kept_rules)
go_on-Keeps st (err dropped) = search (kept_rules)
go_on-Keeps st (err cancelled) = search (kept_rules)

pub advance_or_exhaust-Keeps : (st : EscalationState) → Evolves Keeps (advance_or_exhaust st)
unfolding advance_or_exhaust
advance_or_exhaust-Keeps st = search (kept_rules, go_on-Keeps)

pub manual_escalate-Keeps : (a b : String) → Evolves Keeps (Escalator.manual_escalate a b)
unfolding Escalator.manual_escalate
manual_escalate-Keeps a b = search (kept_rules, advance_or_exhaust-Keeps)

pub stop_active-Keeps :
    (st : EscalationState) (reason : String) → Evolves Keeps (stop_active st reason)
unfolding stop_active
stop_active-Keeps st reason = search (kept_rules) depth 9

pub stop_found-Keeps :
    (r : Result Err EscalationState) (reason : String) → Evolves Keeps (stop_found r reason)
unfolding stop_found
stop_found-Keeps (ok st) reason = search (kept_rules, stop_active-Keeps)
stop_found-Keeps (err not_found) reason = search (kept_rules)
stop_found-Keeps (err conflict) reason = search (kept_rules)
stop_found-Keeps (err failed) reason = search (kept_rules)
stop_found-Keeps (err dropped) reason = search (kept_rules)
stop_found-Keeps (err cancelled) reason = search (kept_rules)

pub stop-Keeps : (a b c : String) → Evolves Keeps (stop a b c)
unfolding stop
stop-Keeps a b c = search (kept_rules, stop_found-Keeps)

pub assign_default-Keeps :
    (a b c : String) (inc : IncidentInfo) (id : Option String)
    → Evolves Keeps (assign_default a b c inc id)
assign_default-Keeps a b c inc none = search (kept_rules)
assign_default-Keeps a b c inc (some id) = assign_policy-Keeps a b c id inc

pub assign_configured-Keeps :
    (a b c : String) (inc : IncidentInfo) (r : Result Err TenantConfig)
    → Evolves Keeps (assign_configured a b c inc r)
assign_configured-Keeps a b c inc (ok cfg) = assign_default-Keeps a b c inc cfg.default_policy_id
assign_configured-Keeps a b c inc (err not_found) = search (kept_rules)
assign_configured-Keeps a b c inc (err conflict) = search (kept_rules)
assign_configured-Keeps a b c inc (err failed) = search (kept_rules)
assign_configured-Keeps a b c inc (err dropped) = search (kept_rules)
assign_configured-Keeps a b c inc (err cancelled) = search (kept_rules)

pub auto_assign-Keeps :
    (a b c : String) (inc : IncidentInfo) → Evolves Keeps (auto_assign a b c inc)
unfolding auto_assign
auto_assign-Keeps a b c inc = search (kept_rules, assign_configured-Keeps)

-- ── The consumer and the monitor

pub handle-Keeps : (type : String) (p : Option IncidentChanged) → Evolves Keeps (handle type p)
unfolding handle handle_payload
handle-Keeps type none = search (kept_rules)
handle-Keeps type (some p) = search (kept_rules, auto_assign-Keeps, stop-Keeps) depth 9

pub advance_all-Keeps : (states : List EscalationState) → Evolves Keeps (advance_all states)
unfolding advance_all
advance_all-Keeps [] = search (kept_rules)
advance_all-Keeps (st ∷ sts) =
    Evolves-bind Keeps-Preorder _ _ (Evolves-try Keeps-Preorder _ (advance_or_exhaust-Keeps st))
      λ r. advance_all-Keeps sts

pub step-Keeps : Evolves Keeps step
unfolding step
step-Keeps =
    Evolves-bind Keeps-Preorder _ _ (Evolves-try Keeps-Preorder _ (list_expired-Keeps 50))
      λ r. Evolves-result Keeps-Preorder r _ _ advance_all-Keeps λ x. Evolves-pure Keeps-Preorder tt
