-- ===== src/Escalation/Redelivery.antt =====
-- A second delivery of `incident.created`
-- (services/escalation/internal/consumer/consumer.go, services/escalation/internal/escalator/escalator.go).
use sreon_call.Prelude.{
  ◌≡◌, ◌≢◌, sym, ap, subst, String, str_eq, List, [], ◌∷◌, true, Option, none, some, ok, err, any,
  find,
}
use sreon_call.Effects.{Err, failed, dropped}
use sreon_call.Effects.Fails.{
  Fails, Reads, Reads-pure, Reads-gets, Reads-call, Fails-raise, Fails-call, Fails-try,
  failed≢dropped, Reads-bind, Fails-bind, Fails-bind_left,
}
use sreon_call.Escalation.Types.{
  EscalationState, PolicyTier, IncidentChanged, IncidentInfo, TenantConfig, World,
}
use sreon_call.Escalation.Policies.{
  found, config_of, select_policy, list_tiers, get_policy, get_tenant_config, owned_policy,
}
use sreon_call.Escalation.States.{create_escalation_state}
use sreon_call.Escalation.Escalator.{start_at_first, assign_policy, assign_default, auto_assign}
use sreon_call.Escalation.Worker.{handle_payload, handle}

-- The incident has an escalation state already.
abbrev pub HasState : String → World → Type 0
HasState incident_id s =
    any (λ (r : EscalationState). str_eq r.incident_id incident_id) s.states ≡ true

found-err : {A : Type 0} (o : Option A) (x : Err) → found o ≡ err x → x ≢ dropped
found-err none x h d = cc
found-err (some a) x h d = cc

create-Fails :
    (st : EscalationState) (s : World)
    → HasState st.incident_id s
    → Fails (create_escalation_state st) s
unfolding create_escalation_state
create-Fails st s h = Fails-call s _ (rw h) (rw h)

get_policy-Reads : (tenant_id id : String) (s : World) → Reads (get_policy tenant_id id) s
unfolding get_policy select_policy list_tiers
get_policy-Reads tenant_id id s =
    Reads-bind s _ _
      (Reads-call s (λ t. found (find (owned_policy tenant_id id) t.policies))
        (λ x. found-err (find (owned_policy tenant_id id) s.policies) x))
      λ p. Reads-bind s _ _ (Reads-call s _ (λ x h d. cc)) λ tiers. Reads-pure s _

start_at_first-Fails :
    (tenant_id tenant_slug incident_id policy_id : String) (inc : IncidentInfo)
    (tiers : List PolicyTier) (s : World)
    → HasState incident_id s
    → Fails (start_at_first tenant_id tenant_slug incident_id policy_id inc tiers) s
unfolding start_at_first
start_at_first-Fails tenant_id tenant_slug incident_id policy_id inc [] s h =
    Fails-raise s failed (λ e. cc)
start_at_first-Fails tenant_id tenant_slug incident_id policy_id inc (t ∷ ts) s h =
    Fails-bind s _ _ (Reads-gets s _) λ now. Fails-bind_left s _ _ (create-Fails _ s h)

assign_policy-Fails :
    (tenant_id tenant_slug incident_id policy_id : String) (inc : IncidentInfo) (s : World)
    → HasState incident_id s
    → Fails (assign_policy tenant_id tenant_slug incident_id policy_id inc) s
unfolding assign_policy
assign_policy-Fails tenant_id tenant_slug incident_id policy_id inc s h =
    Fails-bind s _ _ (get_policy-Reads tenant_id policy_id s)
      λ p. start_at_first-Fails tenant_id tenant_slug incident_id policy_id inc p.tiers s h

auto_assign-Fails :
    (tenant_id tenant_slug incident_id : String) (inc : IncidentInfo) (s : World) (c : TenantConfig)
    (policy_id : String)
    → find (config_of tenant_id) s.configs ≡ some c
    → c.default_policy_id ≡ some policy_id
    → HasState incident_id s
    → Fails (auto_assign tenant_id tenant_slug incident_id inc) s
unfolding auto_assign get_tenant_config
auto_assign-Fails tenant_id tenant_slug incident_id inc s c policy_id hc hp h =
    Fails-try s (λ t. found (find (config_of tenant_id) t.configs)) _ (ok c) (ap found hc)
      (subst (λ p. Fails (assign_default tenant_id tenant_slug incident_id inc p) s) (sym hp)
        (assign_policy-Fails tenant_id tenant_slug incident_id policy_id inc s h))
      (Fails-raise s failed failed≢dropped)

-- A further delivery of `incident.created`: an error that is not `ErrDrop`, and nothing changes.
pub handle_created-Fails :
    (p : IncidentChanged) (s : World) (c : TenantConfig) (policy_id : String)
    → find (config_of p.tenant_id) s.configs ≡ some c
    → c.default_policy_id ≡ some policy_id
    → HasState p.incident_id s
    → Fails (handle "incident.created" (some p)) s
unfolding handle handle_payload
handle_created-Fails p s c policy_id hc hp h =
    auto_assign-Fails p.tenant_id _ p.incident_id _ s c policy_id hc hp h
