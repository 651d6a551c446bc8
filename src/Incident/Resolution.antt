-- ===== src/Incident/Resolution.antt =====
-- Deliveries of a resolved alert: `handleResolved` of services/incident/internal/consumer/consumer.go over
-- `ResolveAlert` and `MaybeResolve` of services/incident/internal/store/store.go.
use sreon_call.Prelude.{
  ◌≡◌, refl, sym, ap, ◌∙◌, inl, inr, subst, String, str_eq, List, ◌∷◌, Bool, true, false, arith,
  Result, ok, err, any, find, update_where, any-update_where, find-none, update_where-none,
}
use sreon_call.Effects.{Err, failed, Env, call, pure, ◌>>=◌}
use sreon_call.Effects.Cases.{call-cases, bind_ok, bind_err}
use sreon_call.Incident.Types.{Alert, IncidentAlert, Tables}
use sreon_call.Incident.Incidents.{
  firing_alert, incident_id_or_empty, resolve_alert, maybe_resolve, count_firing,
}
use sreon_call.Incident.Consumer.{handle_resolved, settle}

-- No alert with this fingerprint fires.
abbrev pub IsSettled : Alert → Tables → Type 0
IsSettled alert s = any (firing_alert alert.tenant_id alert.fingerprint) s.alerts ≡ false

-- The incident of the first alert with this fingerprint that fires, or the empty text.
abbrev pub incident_of : Alert → Tables → String
incident_of alert s =
    incident_id_or_empty (find (firing_alert alert.tenant_id alert.fingerprint) s.alerts)

abbrev settled_alert : IncidentAlert → IncidentAlert
settled_alert a = record a { status = "resolved" }

-- The tables as `ResolveAlert` leaves them.
abbrev pub resolved_tables : Alert → Tables → Tables
resolved_tables alert s = record s {
  alerts =
      update_where (firing_alert alert.tenant_id alert.fingerprint)
        (λ a. record a { status = "resolved" }) s.alerts;
}

resolved_tables-IsSettled : (alert : Alert) (s : Tables) → IsSettled alert (resolved_tables alert s)
resolved_tables-IsSettled alert s =
    any-update_where (firing_alert alert.tenant_id alert.fingerprint) settled_alert s.alerts
      (λ a. ground arith)

resolved_tables-same :
    (alert : Alert) (s : Tables) → IsSettled alert s → resolved_tables alert s ≡ s
resolved_tables-same alert s h =
    ap (λ rows. record s { alerts = rows })
      (update_where-none (firing_alert alert.tenant_id alert.fingerprint) settled_alert s.alerts h)

settle-nothing :
    (tenant_id id : String) (e : Env Tables) → id ≡ "" → (settle tenant_id id e).1.state ≡ e.state
unfolding settle pure
settle-nothing tenant_id id e h = subst (λ x. (settle tenant_id x e).1.state ≡ e.state) (sym h) refl

handle_resolved-settled :
    (alert : Alert) (e : Env Tables)
    → IsSettled alert e.state
    → (handle_resolved alert e).1.state ≡ e.state
unfolding handle_resolved resolve_alert
handle_resolved-settled alert e h =
    elim (call-cases (λ s. (ok (incident_of alert s), resolved_tables alert s)) e) [
      | inl (r, same) ↦
          ap (λ (out : Result Err (Unit {0}) × Env Tables). out.1.state)
            (bind_err (resolve_alert alert.tenant_id alert.fingerprint) (settle alert.tenant_id) e
              failed r)
          ∙ same
      | inr (r, after) ↦
          ap (λ (out : Result Err (Unit {0}) × Env Tables). out.1.state)
            (bind_ok (resolve_alert alert.tenant_id alert.fingerprint) (settle alert.tenant_id) e
              (incident_of alert e.state) r)
          ∙ settle-nothing alert.tenant_id (incident_of alert e.state)
              (resolve_alert alert.tenant_id alert.fingerprint e).1
              (ap incident_id_or_empty
                (find-none (firing_alert alert.tenant_id alert.fingerprint) e.state.alerts h))
          ∙ after
          ∙ resolved_tables-same alert e.state h
    ]

-- A delivery whose count of firing alerts fails.
first_delivery :
    (alert : Alert) (s : Tables) (faults : List Bool)
    → str_eq (incident_of alert s) "" ≡ false
    → handle_resolved alert (record { state = s; faults = false ∷ true ∷ faults })
      ≡ (err failed, record { state = resolved_tables alert s; faults = faults })
unfolding handle_resolved resolve_alert settle maybe_resolve count_firing call ◌>>=◌
first_delivery alert s faults h = rw h refl

-- Where the call after `ResolveAlert` fails, the delivery fails and is requeued, the alert is resolved,
-- and no incident has changed; whatever then fails or not, a later delivery changes nothing, so that
-- the incident is not closed.
pub handle_resolved_loses :
    (alert : Alert) (s : Tables) (faults later : List Bool)
    → str_eq (incident_of alert s) "" ≡ false
    → let first = handle_resolved alert (record { state = s; faults = false ∷ true ∷ faults }) in
      (first.0 ≡ err failed)
      × (first.1.state.incidents ≡ s.incidents)
      × IsSettled alert first.1.state
      × ((handle_resolved alert (record { state = first.1.state; faults = later })).1.state
          ≡ first.1.state)
handle_resolved_loses alert s faults later h = rw (first_delivery alert s faults h) (
  refl,
  refl,
  resolved_tables-IsSettled alert s,
  handle_resolved-settled alert (record { state = resolved_tables alert s; faults = later })
      (resolved_tables-IsSettled alert s),
)
