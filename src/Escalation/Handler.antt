-- ===== src/Escalation/Handler.antt =====
-- services/escalation/internal/handler/handler.go. A request is its decoded parts: a body that is not of
-- the right form is `none`.
pub mod Timed
pub mod Others
pub mod Reachable
mod Tests
use sreon_call.Prelude.{
  ℕ, zero, suc, String, str_eq, List, [], ◌∷◌, map, Bool, true, false, not, Option, none, some,
  filter, if◌then◌else◌, Result, ok, err,
}
use sreon_call.Prelude.Int.{ℤ, pos, negsuc}
use sreon_call.Effects.{Err, not_found, Io, call, pure, try, ◌>>=◌}
use sreon_call.Effects.Http.{
  Reply, reply, text, write_error, write_json, no_body, internal_error, or_internal_error,
  or_missing,
}
use sreon_call.Escalation.Types.{
  PolicyTier, Policy, EscalationState, EscalationHistory, TenantConfig, IncidentInfo, World,
}
use sreon_call.Escalation.Policies.{
  found, get_tenant_config, upsert_tenant_config, delete_tenant_config,
}
use sreon_call.Escalation.Policies
use sreon_call.Escalation.States.{
  get_escalation_state_by_incident, list_escalation_states_by_incidents, list_history,
}
use sreon_call.Escalation.Escalator.{assign_policy}
use sreon_call.Escalation.Escalator

pub data Payload : Type 0 where
  policy : Policy → Payload
  policies : List Policy → Payload
  config : TenantConfig → Payload
  state : EscalationState → Payload
  states : List EscalationState → Payload
  history : List EscalationHistory → Payload

abbrev pub Answer : Type 0
Answer = Io World (Reply Payload)

-- `err.Error()`, `strings.Split` at commas, `strings.TrimSpace`, and what the incident service answers
-- about a tenant and an incident, where it is configured.
pub record Library : Type 0 where
  pub error_text : Err → String
  pub split_commas : String → List String
  pub trim_space : String → String
  pub incident_of : Option (String → String → Option IncidentInfo)

-- ── Policies

pub record TierBody : Type 0 where
  pub tier_number : ℤ
  pub timeout_seconds : ℤ
  pub notify_schedule_id : String

pub record PolicyBody : Type 0 where
  pub name : String
  pub tiers : List TierBody

unfoldable pub list_policies : String → Answer
list_policies tenant = do
  r ← try (Policies.list_policies tenant)
  or_internal_error r λ found. write_json 200 (policies found)

abbrev pub with_timeout : TierBody → ℕ → PolicyTier
with_timeout t timeout = record {
  id = "";
  policy_id = "";
  tier_number = t.tier_number;
  timeout_seconds = timeout;
  notify_schedule_id = t.notify_schedule_id;
}

abbrev pub add_tier : Option PolicyTier → Option (List PolicyTier) → Option (List PolicyTier)
add_tier none rest = none
add_tier (some t) none = none
add_tier (some t) (some ts) = some (t ∷ ts)

-- A tier whose time out is positive.
abbrev pub tier_with : TierBody → ℤ → Option PolicyTier
tier_with t (pos zero) = none
tier_with t (pos (suc n)) = some (with_timeout t (suc n))
tier_with t (negsuc n) = none

-- The loop over `body.Tiers`, which ends at a time out that is not positive.
unfoldable pub checked_tiers : List TierBody → Option (List PolicyTier)
checked_tiers [] = some []
checked_tiers (t ∷ ts) = add_tier (tier_with t t.timeout_seconds) (checked_tiers ts)

abbrev pub new_policy : String → String → List PolicyTier → Policy
new_policy tenant name tiers = record {
  id = "";
  tenant_id = tenant;
  name = name;
  tiers = tiers;
  created_at = 0;
}

unfoldable pub store_checked : String → String → Option (List PolicyTier) → Answer
store_checked tenant name none = write_error 422 "timeout_seconds must be positive"
store_checked tenant name (some tiers) = do
  r ← try (Policies.create_policy (new_policy tenant name tiers))
  or_internal_error r λ p. write_json 201 (policy p)

abbrev pub unless_empty : List TierBody → Answer → Answer
unless_empty [] next = write_error 422 "at least one tier is required"
unless_empty (t ∷ ts) next = next

unfoldable pub create_policy : String → Option PolicyBody → Answer
create_policy tenant none = write_error 400 "invalid JSON"
create_policy tenant (some b) =
    if str_eq b.name ""
    then write_error 422 "name is required"
    else unless_empty b.tiers (store_checked tenant b.name (checked_tiers b.tiers))

unfoldable pub get_policy : String → String → Answer
get_policy tenant id = do
  r ← try (Policies.get_policy tenant id)
  or_missing "not found" r λ p. write_json 200 (policy p)

unfoldable pub delete_policy : String → String → Answer
delete_policy tenant id = do
  r ← try (Policies.delete_policy tenant id)
  or_missing "not found" r λ _. no_body

-- ── Default policy

unfoldable pub get_default_policy : String → Answer
get_default_policy tenant = do
  r ← try (get_tenant_config tenant)
  or_missing "no default policy configured" r λ c. write_json 200 (config c)

abbrev pub if_owned : Result Err Policy → Answer → Answer
if_owned (ok _) next = next
if_owned (err not_found) next = write_error 422 "policy not found for this tenant"
if_owned (err x) next = internal_error

unfoldable pub write_default : String → String → Answer
write_default tenant policy_id = do
  let c : TenantConfig = record {
    tenant_id = tenant;
    default_policy_id = some policy_id;
    updated_at = 0;
  }
  r ← try (upsert_tenant_config c)
  or_internal_error r λ _. write_json 200 (config c)

unfoldable pub put_default_policy : String → Option String → Answer
put_default_policy tenant none = write_error 400 "invalid JSON"
put_default_policy tenant (some policy_id) =
    if str_eq policy_id "" then write_error 422 "policy_id is required" else do
      r ← try (Policies.get_policy tenant policy_id)
      if_owned r (write_default tenant policy_id)

unfoldable pub delete_default_policy : String → Answer
delete_default_policy tenant = do
  r ← try (delete_tenant_config tenant)
  or_internal_error r λ _. no_body

-- ── Incident escalation

abbrev pub answer_state : ℕ → Result Err EscalationState → Answer
answer_state code r = or_internal_error r λ st. write_json code (state st)

unfoldable pub get_escalation_state : String → String → Answer
get_escalation_state tenant incident_id = do
  r ← try (get_escalation_state_by_incident tenant incident_id)
  or_missing "not found" r λ st. write_json 200 (state st)

unfoldable pub get_history : String → String → Answer
get_history tenant incident_id = do
  r ← try (list_history tenant incident_id)
  or_internal_error r λ found. write_json 200 (history found)

abbrev pub no_info : IncidentInfo
no_info = record { title = ""; severity = ""; status = "" }

abbrev pub or_no_info : Result Err IncidentInfo → IncidentInfo
or_no_info (ok info) = info
or_no_info (err _) = no_info

-- A failure of the incident service does not stop the request.
abbrev pub fetch_info :
    Option (String → String → Option IncidentInfo) → String → String → Io World IncidentInfo
fetch_info none tenant incident_id = pure no_info
fetch_info (some incident_of) tenant incident_id = do
  r ← try (call λ (s : World). (found (incident_of tenant incident_id), s))
  pure (or_no_info r)

module _ (lib : Library) where
  unfoldable pub answer_attached : String → String → Result Err (Unit {0}) → Answer
  answer_attached tenant incident_id (err not_found) = write_error 404 "policy not found"
  answer_attached tenant incident_id (err x) = write_error 500 (lib.error_text x)
  answer_attached tenant incident_id (ok _) = do
    st ← try (get_escalation_state_by_incident tenant incident_id)
    answer_state 201 st

  -- The body's policy and slug, which are empty where they are not there.
  unfoldable pub attach_policy : String → String → Option (String × String) → Answer
  attach_policy tenant incident_id none = write_error 400 "invalid JSON"
  attach_policy tenant incident_id (some (policy_id, slug)) =
      if str_eq policy_id "" then write_error 422 "policy_id is required" else do
        info ← fetch_info lib.incident_of tenant incident_id
        r ← try (
            assign_policy tenant (if str_eq slug "" then tenant else slug) incident_id policy_id
              info)
        answer_attached tenant incident_id r

  unfoldable pub parse_incident_ids : String → List String
  parse_incident_ids csv =
      if str_eq csv ""
      then []
      else filter (λ id. not (str_eq id "")) (map lib.trim_space (lib.split_commas csv))

  unfoldable pub get_escalation_states : String → String → Answer
  get_escalation_states tenant csv = do
    r ← try (list_escalation_states_by_incidents tenant (parse_incident_ids csv))
    or_internal_error r λ found. write_json 200 (states found)

  unfoldable pub answer_escalated : String → String → Result Err (Unit {0}) → Answer
  answer_escalated tenant incident_id (err not_found) =
      write_error 404 "no active escalation for this incident"
  answer_escalated tenant incident_id (err x) = write_error 409 (lib.error_text x)
  answer_escalated tenant incident_id (ok _) = do
    st ← try (get_escalation_state_by_incident tenant incident_id)
    answer_state 200 st

  unfoldable pub manual_escalate : String → String → Answer
  manual_escalate tenant incident_id = do
    r ← try (Escalator.manual_escalate tenant incident_id)
    answer_escalated tenant incident_id r
