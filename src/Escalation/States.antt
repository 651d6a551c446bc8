-- ===== src/Escalation/States.antt =====
-- Escalation states and their history in services/escalation/internal/store/store.go: each SQL
-- statement is one call that acts on the tables of services/escalation/migrations, with their keys.
use sreon_call.Prelude.{
  ℕ, suc, String, str_eq, List, [], ◌∷◌, ◌++◌, Bool, not, ◌&&◌, ◌||◌, Option, none, some, leb,
  if◌then◌else◌, Result, ok, err, filter, any, find, take, sort_by, update_where,
}
use sreon_call.Prelude.Int.{ℤ, eq_ℤ}
use sreon_call.Effects.{Err, not_found, conflict, failed, Io, call, pure, with_tx, ◌>>◌}
use sreon_call.Escalation.Types.{EscalationState, EscalationHistory, World}
use sreon_call.Escalation.Policies.{found, affected}

-- ── Escalation states

-- `incident_id` is unique and `policy_id` refers to a policy; the row is active.
unfoldable pub create_escalation_state : EscalationState → Io World EscalationState
create_escalation_state st = call λ s.
    let row = record st {
      id = s.uuid s.next_id;
      status = "active";
      created_at = s.clock;
      updated_at = s.clock;
    } in
    if any (λ r. str_eq r.incident_id st.incident_id) s.states
      || not (any (λ p. str_eq p.id st.policy_id) s.policies)
    then (err failed, s)
    else (
      ok (record st { id = row.id; created_at = s.clock; updated_at = s.clock }),
      record s { states = s.states ++ (row ∷ []); next_id = suc s.next_id },
    )

abbrev pub state_of : String → String → EscalationState → Bool
state_of tenant_id incident_id r = str_eq r.incident_id incident_id && str_eq r.tenant_id tenant_id

unfoldable pub get_escalation_state_by_incident : String → String → Io World EscalationState
get_escalation_state_by_incident tenant_id incident_id =
    call λ s. (found (find (state_of tenant_id incident_id) s.states), s)

-- `incident_id = ANY($2)`.
unfoldable pub list_escalation_states_by_incidents :
    String → List String → Io World (List EscalationState)
list_escalation_states_by_incidents tenant_id [] = pure []
list_escalation_states_by_incidents tenant_id (i ∷ is) = call λ s. (
  ok (
      filter (λ r. str_eq r.tenant_id tenant_id && any (λ id. str_eq r.incident_id id) (i ∷ is))
        s.states),
  s,
)

-- SET current_tier, status, escalate_at, updated_at.
abbrev pub write_state : EscalationState → ℕ → EscalationState → EscalationState
write_state st now r = record r {
  current_tier = st.current_tier;
  status = st.status;
  escalate_at = st.escalate_at;
  updated_at = now;
}

unfoldable pub update_escalation_state : EscalationState → Io World (Unit {0})
update_escalation_state st = call λ s.
    let hit = λ (r : EscalationState). str_eq r.id st.id in
    (
      affected (any hit s.states) not_found,
      record s { states = update_where hit (write_state st s.clock) s.states },
    )

-- WHERE id=$4 AND current_tier=$5 AND status=$6.
abbrev pub claimable : String → ℤ → String → EscalationState → Bool
claimable id tier status r = str_eq r.id id && (eq_ℤ r.current_tier tier && str_eq r.status status)

abbrev pub claim_row : EscalationState → ℤ → String → World → Result Err (Unit {0}) × World
claim_row st expected_tier expected_status s = (
  affected (any (claimable st.id expected_tier expected_status) s.states) conflict,
  record s {
    states =
        update_where (claimable st.id expected_tier expected_status) (write_state st s.clock)
          s.states;
  },
)

unfoldable pub claim_state : EscalationState → ℤ → String → Io World (Unit {0})
claim_state st expected_tier expected_status = call (claim_row st expected_tier expected_status)

-- ── History

unfoldable pub append_history : EscalationHistory → Io World (Unit {0})
append_history h = call λ s. (
  ok tt,
  record s {
    history = s.history ++ (record h { id = s.uuid s.next_id; created_at = s.clock } ∷ []);
    next_id = suc s.next_id;
  },
)

abbrev pub maybe_append : Option EscalationHistory → Io World (Unit {0})
maybe_append none = pure tt
maybe_append (some h) = append_history h

unfoldable pub advance_escalation_state :
    EscalationState → ℤ → String → Option EscalationHistory → Io World (Unit {0})
advance_escalation_state st expected_tier expected_status hist =
    with_tx (do claim_state st expected_tier expected_status; maybe_append hist)

-- `FOR UPDATE SKIP LOCKED` outside a transaction releases the rows at once, and locks nothing.
unfoldable pub list_expired_states : ℕ → Io World (List EscalationState)
list_expired_states limit = call λ s. (
  ok (
      take limit (
        sort_by (λ a b. leb a.escalate_at b.escalate_at)
          (filter (λ r. str_eq r.status "active" && leb r.escalate_at s.clock) s.states))),
  s,
)

unfoldable pub list_history : String → String → Io World (List EscalationHistory)
list_history tenant_id incident_id = call λ s. (
  ok (
      sort_by (λ a b. leb a.created_at b.created_at)
        (filter (λ h. str_eq h.incident_id incident_id && str_eq h.tenant_id tenant_id) s.history)),
  s,
)
