-- ===== src/Incident/Tests.antt =====
-- Runs of the incident service (services/incident) at concrete inputs, and the theorems applied there.
use sreon_call.Prelude.{◌≡◌, refl, ◌⊎◌, [], ◌∷◌, true, false, none, some, ok, err, any}
use sreon_call.Effects.{failed, Env}
use sreon_call.Incident.Types.{Incident, IncidentAlert, Alert, Tables}
use sreon_call.Incident.StateMachine.{allowed}
use sreon_call.Incident.Incidents.{firing_of, unresolved}
use sreon_call.Incident.Consumer.{handle_resolved}
use sreon_call.Incident.Handler.{patch_status}
use sreon_call.Incident.Transitions.{Moves, patch_status-Moves}
use sreon_call.Incident.Resolution.{IsSettled, incident_of, resolved_tables, handle_resolved_loses}
use sreon_call.Incident.Closing.{handle_resolved_closes}

acknowledge_after_open : allowed "open" "acknowledged" ≡ true
unfolding allowed
acknowledge_after_open = refl

acknowledge_after_resolve : allowed "resolved" "acknowledged" ≡ false
unfolding allowed
acknowledge_after_resolve = refl

abbrev disk_full : Incident
disk_full = record {
  id = "i1";
  tenant_id = "acme";
  tenant_slug = "acme";
  title = "disk full";
  severity = "critical";
  status = "open";
  labels = [];
  acknowledged_at = none;
  acknowledged_by = none;
  resolved_at = none;
  created_at = 1;
  updated_at = 1;
}

abbrev disk_alert : IncidentAlert
disk_alert = record {
  id = "a1";
  incident_id = "i1";
  tenant_id = "acme";
  fingerprint = "f1";
  source = "grafana";
  group_key = "k1";
  status = "firing";
  attached_at = 1;
}

abbrev tables : Tables
tables = record {
  incidents = disk_full ∷ [];
  alerts = disk_alert ∷ [];
  labels = [];
  comments = [];
  history = [];
  rules = [];
  outbox = [];
  clock = 10;
  next_id = 0;
  uuid = λ n. "fresh";
}

abbrev resolved : Alert
resolved = record {
  fingerprint = "f1";
  source = "grafana";
  severity = "critical";
  title = "disk full";
  description = "";
  labels = [];
  status = "resolved";
  fired_at = 1;
  received_at = 9;
  tenant_id = "acme";
}

abbrev calm : Env Tables
calm = record { state = tables; faults = [] }

patch_status-Moves_example :
    Moves tables.incidents
      (patch_status "acme" "acme" "i1" "ann" (some "acknowledged") calm).1.state.incidents
patch_status-Moves_example = patch_status-Moves "acme" "acme" "i1" "ann" (some "acknowledged") calm

handle_resolved_closes_example :
    ((handle_resolved resolved calm).0 ≡ ok tt)
    × (((any (firing_of (incident_of resolved tables)) (resolved_tables resolved tables).alerts
            ≡ true)
          × ((handle_resolved resolved calm).1.state.incidents ≡ tables.incidents))
        ⊎ ((any (firing_of (incident_of resolved tables)) (resolved_tables resolved tables).alerts
              ≡ false)
            × (any
                  (unresolved "acme" (incident_of resolved tables))
                  (handle_resolved resolved calm).1.state.incidents
                ≡ false)))
handle_resolved_closes_example = handle_resolved_closes resolved tables refl

-- The delivery whose second call fails.
abbrev count_fails : Env Tables
count_fails = record { state = tables; faults = false ∷ true ∷ [] }

handle_resolved_loses_example :
    ((handle_resolved resolved count_fails).0 ≡ err failed)
    × ((handle_resolved resolved count_fails).1.state.incidents ≡ tables.incidents)
    × IsSettled resolved (handle_resolved resolved count_fails).1.state
    × ((handle_resolved resolved
          (record { state = (handle_resolved resolved count_fails).1.state; faults = [] })).1.state
        ≡ (handle_resolved resolved count_fails).1.state)
handle_resolved_loses_example = handle_resolved_loses resolved tables [] [] refl
