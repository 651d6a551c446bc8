-- ===== src/Escalation/Handler/Reachable.antt =====
-- What holds of the tiers of services/escalation whatever comes in: requests (the routes of
-- services/escalation/cmd/server/main.go, past authentication), messages, and steps of the monitor.
use sreon_call.Prelude.{
  ℕ, ◌<◌, ◌≡◌, sym, subst, String, List, [], Bool, Option, none, some, All, Result, ok, err,
}
use sreon_call.Effects.{Err, not_found, conflict, failed, cancelled, dropped}
use sreon_call.Effects.Evolves.{Evolves}
use sreon_call.Escalation.Types.{Policy, IncidentInfo, EscalationState, IncidentChanged, World}
use sreon_call.Escalation.Worker.{handle, step}
use sreon_call.Escalation.Handler.{
  Answer, Library, PolicyBody, list_policies, create_policy, get_policy, delete_policy,
  get_default_policy, if_owned, write_default, put_default_policy, delete_default_policy,
  answer_state, get_escalation_state, get_history, fetch_info, answer_attached, attach_policy,
  get_escalation_states, answer_escalated, manual_escalate,
}
use sreon_call.Escalation.Handler.Timed.{IsTimed, Keeps, create_policy-Keeps, delete_policy-Keeps}
use sreon_call.Escalation.Handler.Others.{
  kept_rules, assign_policy-Keeps, manual_escalate-Keeps, handle-Keeps, step-Keeps,
}

pub data Request : Type 0 where
  policies_get default_get default_delete : String → Request
  policies_post : String → Option PolicyBody → Request
  policy_get policy_delete : String → String → Request
  default_put : String → Option String → Request
  states_get state_get history_get escalate_post : String → String → Request
  policy_attach : String → String → Option (String × String) → Request

module _ (lib : Library) where
  unfoldable pub route : Request → Answer
  route (policies_get tenant) = list_policies tenant
  route (policies_post tenant body) = create_policy tenant body
  route (policy_get tenant id) = get_policy tenant id
  route (policy_delete tenant id) = delete_policy tenant id
  route (default_get tenant) = get_default_policy tenant
  route (default_put tenant body) = put_default_policy tenant body
  route (default_delete tenant) = delete_default_policy tenant
  route (states_get tenant csv) = get_escalation_states lib tenant csv
  route (policy_attach tenant incident_id body) = attach_policy lib tenant incident_id body
  route (state_get tenant incident_id) = get_escalation_state tenant incident_id
  route (escalate_post tenant incident_id) = manual_escalate lib tenant incident_id
  route (history_get tenant incident_id) = get_history tenant incident_id

  -- A request, a message, a step of the monitor, whatever fails in each; and time that passes.
  pub data Step : World → World → Type 0 where
    serves :
        (q : Request) (faults : List Bool) (s : World)
        → Step s (route q (record { state = s; faults = faults })).1.state
    takes :
        (type : String) (p : Option IncidentChanged) (faults : List Bool) (s : World)
        → Step s (handle type p (record { state = s; faults = faults })).1.state
    monitors :
        (faults : List Bool) (s : World)
        → Step s (step (record { state = s; faults = faults })).1.state
    passes : (s : World) (now : ℕ) → Step s (record s { clock = now })

  pub data Reach (s : World) : World → Type 0 where
    here : Reach s s
    next : {t u : World} → Reach s t → Step t u → Reach s u

-- ── The handlers that neither create nor delete a policy

list_policies-Keeps : (tenant : String) → Evolves Keeps (list_policies tenant)
unfolding list_policies
list_policies-Keeps tenant = search (kept_rules)

get_policy-Keeps : (tenant id : String) → Evolves Keeps (get_policy tenant id)
unfolding get_policy
get_policy-Keeps tenant id = search (kept_rules)

get_default-Keeps : (tenant : String) → Evolves Keeps (get_default_policy tenant)
unfolding get_default_policy
get_default-Keeps tenant = search (kept_rules)

if_owned-Keeps :
    (r : Result Err Policy) (m : Answer) → Evolves Keeps m → Evolves Keeps (if_owned r m)
if_owned-Keeps (ok p) m h = h
if_owned-Keeps (err not_found) m h = search (kept_rules)
if_owned-Keeps (err conflict) m h = search (kept_rules)
if_owned-Keeps (err failed) m h = search (kept_rules)
if_owned-Keeps (err dropped) m h = search (kept_rules)
if_owned-Keeps (err cancelled) m h = search (kept_rules)

write_default-Keeps : (tenant id : String) → Evolves Keeps (write_default tenant id)
unfolding write_default
write_default-Keeps tenant id = search (kept_rules)

put_default-Keeps :
    (tenant : String) (body : Option String) → Evolves Keeps (put_default_policy tenant body)
unfolding put_default_policy
put_default-Keeps tenant none = search (kept_rules)
put_default-Keeps tenant (some id) =
    search (kept_rules, if_owned-Keeps, write_default-Keeps) depth 9

delete_default-Keeps : (tenant : String) → Evolves Keeps (delete_default_policy tenant)
unfolding delete_default_policy
delete_default-Keeps tenant = search (kept_rules)

answer_state-Keeps :
    (code : ℕ) (r : Result Err EscalationState) → Evolves Keeps (answer_state code r)
answer_state-Keeps code r = search (kept_rules)

get_one_state-Keeps : (tenant id : String) → Evolves Keeps (get_escalation_state tenant id)
unfolding get_escalation_state
get_one_state-Keeps tenant id = search (kept_rules)

history-Keeps : (tenant id : String) → Evolves Keeps (get_history tenant id)
unfolding get_history
history-Keeps tenant id = search (kept_rules)

fetch_info-Keeps :
    (answers : Option (String → String → Option IncidentInfo)) (tenant id : String)
    → Evolves Keeps (fetch_info answers tenant id)
fetch_info-Keeps none tenant id = search (kept_rules)
fetch_info-Keeps (some answers) tenant id = search (kept_rules)

module _ (lib : Library) where
  answer_attached-Keeps :
      (tenant id : String) (r : Result Err (Unit {0}))
      → Evolves Keeps (answer_attached lib tenant id r)
  unfolding answer_attached
  answer_attached-Keeps tenant id (ok u) = search (kept_rules, answer_state-Keeps)
  answer_attached-Keeps tenant id (err not_found) = search (kept_rules)
  answer_attached-Keeps tenant id (err conflict) = search (kept_rules)
  answer_attached-Keeps tenant id (err failed) = search (kept_rules)
  answer_attached-Keeps tenant id (err dropped) = search (kept_rules)
  answer_attached-Keeps tenant id (err cancelled) = search (kept_rules)

  attach_policy-Keeps :
      (tenant id : String) (body : Option (String × String))
      → Evolves Keeps (attach_policy lib tenant id body)
  unfolding attach_policy
  attach_policy-Keeps tenant id none = search (kept_rules)
  attach_policy-Keeps tenant id (some (policy_id, slug)) =
      search (kept_rules, fetch_info-Keeps, assign_policy-Keeps, answer_attached-Keeps) depth 10

  get_states-Keeps : (tenant csv : String) → Evolves Keeps (get_escalation_states lib tenant csv)
  unfolding get_escalation_states
  get_states-Keeps tenant csv = search (kept_rules)

  answer_escalated-Keeps :
      (tenant id : String) (r : Result Err (Unit {0}))
      → Evolves Keeps (answer_escalated lib tenant id r)
  unfolding answer_escalated
  answer_escalated-Keeps tenant id (ok u) = search (kept_rules, answer_state-Keeps)
  answer_escalated-Keeps tenant id (err not_found) = search (kept_rules)
  answer_escalated-Keeps tenant id (err conflict) = search (kept_rules)
  answer_escalated-Keeps tenant id (err failed) = search (kept_rules)
  answer_escalated-Keeps tenant id (err dropped) = search (kept_rules)
  answer_escalated-Keeps tenant id (err cancelled) = search (kept_rules)

  escalate-Keeps : (tenant id : String) → Evolves Keeps (manual_escalate lib tenant id)
  unfolding manual_escalate
  escalate-Keeps tenant id = search (kept_rules, manual_escalate-Keeps, answer_escalated-Keeps)

  route-Keeps : (q : Request) → Evolves Keeps (route lib q)
  unfolding route
  route-Keeps (policies_get tenant) = list_policies-Keeps tenant
  route-Keeps (policies_post tenant body) = create_policy-Keeps tenant body
  route-Keeps (policy_get tenant id) = get_policy-Keeps tenant id
  route-Keeps (policy_delete tenant id) = delete_policy-Keeps tenant id
  route-Keeps (default_get tenant) = get_default-Keeps tenant
  route-Keeps (default_put tenant body) = put_default-Keeps tenant body
  route-Keeps (default_delete tenant) = delete_default-Keeps tenant
  route-Keeps (states_get tenant csv) = get_states-Keeps tenant csv
  route-Keeps (policy_attach tenant id body) = attach_policy-Keeps tenant id body
  route-Keeps (state_get tenant id) = get_one_state-Keeps tenant id
  route-Keeps (escalate_post tenant id) = escalate-Keeps tenant id
  route-Keeps (history_get tenant id) = history-Keeps tenant id

  Step-IsTimed : {s t : World} → Step lib s t → IsTimed s → IsTimed t
  Step-IsTimed (serves q faults s) h = (route-Keeps q).at (record { state = s; faults = faults }) h
  Step-IsTimed (takes type p faults s) h =
      (handle-Keeps type p).at (record { state = s; faults = faults }) h
  Step-IsTimed (monitors faults s) h = step-Keeps.at (record { state = s; faults = faults }) h
  Step-IsTimed (passes s now) h = h

-- From a table without tiers on, whatever requests, messages and steps of the monitor follow and whatever
-- fails in them, every tier has a positive time out.
pub Reach-IsTimed : {lib : Library} {s t : World} → s.tiers ≡ [] → Reach lib s t → IsTimed t
Reach-IsTimed no_tiers here = subst (All (λ t. 0 < t.timeout_seconds)) (sym no_tiers) tt
Reach-IsTimed {lib} no_tiers (next r st) = Step-IsTimed lib st (Reach-IsTimed no_tiers r)
