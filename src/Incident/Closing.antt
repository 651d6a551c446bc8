-- ===== src/Incident/Closing.antt =====
-- When a resolved alert closes its incident: `handleResolved` of
-- services/incident/internal/consumer/consumer.go where no call fails.
use sreon_call.Prelude.{
  ◌≡◌, refl, ap, ◌∙◌, ◌⊎◌, inl, inr, String, str_eq, List, [], ◌∷◌, Bool, true, false, ltb, ℕ, suc,
  some, arith, Result, ok, err, any, filter, length, update_where, any-update_where, Bool-cases,
}
use sreon_call.Effects.{Err, Env, call, gets, try, pure, ◌>>=◌}
use sreon_call.Effects.Evolves.{Evolves, evolves_rules}
use sreon_call.Escalation.Types.{IncidentChanged}
use sreon_call.Incident.Types.{Alert, Incident, IncidentEvent, incident_updated, Tables}
use sreon_call.Incident.Incidents.{
  close_incident, unresolved, firing_of, resolve_alert, maybe_resolve, count_firing,
}
use sreon_call.Incident.Consumer.{handle_resolved, settle, after_close, announce, announce_read}
use sreon_call.Incident.Transitions.{
  Kept, Kept-Preorder, append_history-Kept, get_incident-Kept, send-Kept,
}
use sreon_call.Incident.Resolution.{incident_of, resolved_tables}

positive : (n : ℕ) → ltb 0 (suc n) ≡ true
positive n = ground arith

-- A count is positive where a row passes the test.
count-any : {A : Type 0} (p : A → Bool) (xs : List A) → ltb 0 (length (filter p xs)) ≡ any p xs
count-any p [] = refl
count-any p (x ∷ xs) = elim (Bool-cases (p x)) [
  | inl hit ↦ rw hit (positive (length (filter p xs)))
  | inr miss ↦ rw miss (count-any p xs)
]

announce_read-Kept :
    (event : IncidentChanged → IncidentEvent) (r : Result Err Incident)
    → Evolves Kept (announce_read event r)
announce_read-Kept event (ok inc) = search (evolves_rules, Kept-Preorder, send-Kept)
announce_read-Kept event (err x) = search (evolves_rules, Kept-Preorder)

announce-Kept :
    (event : IncidentChanged → IncidentEvent) (tenant_id id : String)
    → Evolves Kept (announce event tenant_id id)
unfolding announce
announce-Kept event tenant_id id =
    search (evolves_rules, Kept-Preorder, get_incident-Kept, announce_read-Kept)

after_close-Kept : (tenant_id id : String) → Evolves Kept (after_close tenant_id id true)
unfolding after_close
after_close-Kept tenant_id id =
    search (evolves_rules, Kept-Preorder, append_history-Kept, announce-Kept)

announce_read-ok :
    (event : IncidentChanged → IncidentEvent) (r : Result Err Incident) (e : Env Tables)
    → (announce_read event r e).0 ≡ ok tt
unfolding ◌>>=◌ try pure
announce_read-ok event (ok inc) e = refl
announce_read-ok event (err x) e = refl

after_close-ok :
    (tenant_id id : String) (e : Env Tables) → (after_close tenant_id id true e).0 ≡ ok tt
unfolding after_close announce ◌>>=◌ try
after_close-ok tenant_id id e = announce_read-ok incident_updated _ _

-- The rows that `MaybeResolve` writes.
abbrev closed_tables : String → String → Tables → Tables
closed_tables tenant_id id t = record t {
  incidents =
      update_where (unresolved tenant_id id)
        (λ r. record r { status = "resolved"; resolved_at = some t.clock; updated_at = t.clock })
        t.incidents;
}

settle-still_firing :
    (tenant_id id : String) (t : Tables)
    → str_eq id "" ≡ false
    → any (firing_of id) t.alerts ≡ true
    → settle tenant_id id (record { state = t; faults = [] })
      ≡ (ok tt, record { state = t; faults = [] })
unfolding settle maybe_resolve count_firing call gets ◌>>=◌ pure after_close
settle-still_firing tenant_id id t h k = rw h (rw (count-any (firing_of id) t.alerts) (rw k refl))

settle-last :
    (tenant_id id : String) (t : Tables)
    → str_eq id "" ≡ false
    → any (firing_of id) t.alerts ≡ false
    → settle tenant_id id (record { state = t; faults = [] })
      ≡ after_close tenant_id id true (record { state = closed_tables tenant_id id t; faults = [] })
unfolding settle maybe_resolve count_firing close_incident call gets ◌>>=◌ pure
settle-last tenant_id id t h k = rw h (rw (count-any (firing_of id) t.alerts) (rw k refl))

handle_resolved-settle :
    (alert : Alert) (s : Tables)
    → handle_resolved alert (record { state = s; faults = [] })
      ≡ settle alert.tenant_id
          (incident_of alert s)
          (record { state = resolved_tables alert s; faults = [] })
unfolding handle_resolved resolve_alert call ◌>>=◌
handle_resolved-settle alert s = refl

closed_tables-closed :
    (tenant_id id : String) (t : Tables)
    → any (unresolved tenant_id id) (closed_tables tenant_id id t).incidents ≡ false
closed_tables-closed tenant_id id t =
    any-update_where (unresolved tenant_id id) _ t.incidents (λ r. ground arith)

-- Where no call fails and an alert with the fingerprint fires: while another alert of its incident
-- fires, no incident changes, and once none does, the incident is resolved.
pub handle_resolved_closes :
    (alert : Alert) (s : Tables)
    → str_eq (incident_of alert s) "" ≡ false
    → let out = handle_resolved alert (record { state = s; faults = [] }) in
      let fires = any (firing_of (incident_of alert s)) (resolved_tables alert s).alerts in
      (out.0 ≡ ok tt)
      × (((fires ≡ true) × (out.1.state.incidents ≡ s.incidents))
          ⊎ ((fires ≡ false)
              × (any (unresolved alert.tenant_id (incident_of alert s)) out.1.state.incidents
                  ≡ false)))
handle_resolved_closes alert s h =
    rw (handle_resolved-settle alert s)
      (elim (Bool-cases (any (firing_of (incident_of alert s)) (resolved_tables alert s).alerts)) [
        | inl fires ↦
            rw
              (settle-still_firing alert.tenant_id (incident_of alert s) (resolved_tables alert s) h
                fires)
              (refl, inl (fires, refl))
        | inr quiet ↦
            rw (settle-last alert.tenant_id (incident_of alert s) (resolved_tables alert s) h quiet)
              (
                after_close-ok alert.tenant_id (incident_of alert s) _,
                inr (
                  quiet,
                  ap (any (unresolved alert.tenant_id (incident_of alert s)))
                        ((after_close-Kept alert.tenant_id (incident_of alert s)).at _)
                      ∙ closed_tables-closed alert.tenant_id (incident_of alert s)
                          (resolved_tables alert s),
                ),
              )
      ])
