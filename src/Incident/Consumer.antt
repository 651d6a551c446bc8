-- ===== src/Incident/Consumer.antt =====
-- services/incident/internal/consumer/consumer.go. SHA-256 in hexadecimal is the parameter `digest`.
-- A publisher's message is a row of `outbox`. Metrics and logs are left out.
use Prim.Native.Nat.{Ordering}
use Prim.Native.String.{compare, ◌++◌ as ◌<>◌}
use sreon_call.Prelude.{
  String, str_eq, List, [], ◌∷◌, ◌++◌, map, Bool, true, false, Option, none, some, if◌then◌else◌,
  Result, ok, err, sort_by,
}
use sreon_call.Effects.{Err, dropped, Io, call, pure, raise, try, ◌>>=◌, ◌>>◌}
use sreon_call.Escalation.Types.{IncidentChanged}
use sreon_call.Incident.Types.{
  Labels, label_of, Incident, IncidentAlert, HistoryEntry, Alert, IncidentEvent, incident_created,
  incident_updated, Tables,
}
use sreon_call.Incident.Incidents.{
  append_history, attach_alert, create_incident_tx, get_incident, maybe_resolve,
  find_open_incident_by_group_key, resolve_alert,
}
use sreon_call.Incident.Records.{get_grouping_rule}

unfoldable pub normalize_source : String → String
normalize_source source = if str_eq source "prometheus" then "alertmanager" else source

-- ── The group key

-- `sort.Strings`.
abbrev pub at_most : String → String → Bool
at_most a b = elim (compare a b) [ Ordering.gt ↦ false | _ ↦ true ]

-- `strings.Join(parts, ",")`.
abbrev pub join_rest : List String → String
join_rest [] = ""
join_rest (p ∷ ps) = "," <> (p <> join_rest ps)

abbrev pub join : List String → String
join [] = ""
join (p ∷ ps) = p <> join_rest ps

abbrev pub key_part : Labels → String → String
key_part labels name = name <> ("=" <> label_of name labels)

-- The text that is hashed.
unfoldable pub key_text : Labels → List String → String
key_text labels grouping = join (sort_by at_most (map (key_part labels) grouping))

unfoldable pub compute_group_key : (String → String) → Labels → List String → String
compute_group_key digest labels grouping = digest (key_text labels grouping)

-- ── Events

abbrev pub changed : Incident → IncidentChanged
changed inc = record {
  incident_id = inc.id;
  tenant_id = inc.tenant_id;
  tenant_slug = inc.tenant_slug;
  status = inc.status;
  title = inc.title;
  severity = inc.severity;
}

unfoldable pub send : IncidentEvent → Io Tables (Unit {0})
send ev = call λ s. (ok tt, record s { outbox = s.outbox ++ (ev ∷ []) })

-- `inc, _ := GetIncident`: an event is sent if the incident could be read; an error is logged.
abbrev pub announce_read :
    (IncidentChanged → IncidentEvent) → Result Err Incident → Io Tables (Unit {0})
announce_read event (ok inc) = do try (send (event (changed inc))); pure tt
announce_read event (err x) = pure tt

unfoldable pub announce : (IncidentChanged → IncidentEvent) → String → String → Io Tables (Unit {0})
announce event tenant_id incident_id = do
  r ← try (get_incident tenant_id incident_id)
  announce_read event r

-- ── An alert that fires

abbrev pub new_alert : Alert → String → String → String → IncidentAlert
new_alert alert tenant_id group_key incident_id = record {
  id = "";
  incident_id = incident_id;
  tenant_id = tenant_id;
  fingerprint = alert.fingerprint;
  source = alert.source;
  group_key = group_key;
  status = "firing";
  attached_at = 0;
}

abbrev pub new_incident : Alert → String → Incident
new_incident alert tenant_id = record {
  id = "";
  tenant_id = tenant_id;
  tenant_slug = tenant_id;
  title = alert.title;
  severity = alert.severity;
  status = "open";
  labels = [];
  acknowledged_at = none;
  acknowledged_by = none;
  resolved_at = none;
  created_at = 0;
  updated_at = 0;
}

abbrev pub status_change : String → String → String → String → HistoryEntry
status_change incident_id tenant_id old_value new_value = record {
  id = "";
  incident_id = incident_id;
  tenant_id = tenant_id;
  kind = "status_change";
  author = "";
  old_value = old_value;
  new_value = new_value;
  occurred_at = 0;
}

unfoldable pub open_incident : Alert → String → String → Io Tables (Unit {0})
open_incident alert tenant_id group_key = do
  inc ←
      create_incident_tx (new_incident alert tenant_id) alert.labels
        (some (status_change "" tenant_id "" "open")) (new_alert alert tenant_id group_key "")
  announce incident_created tenant_id inc.id

unfoldable pub handle_firing : (String → String) → Alert → String → Io Tables (Unit {0})
handle_firing digest alert tenant_id = do
  rule ← get_grouping_rule tenant_id (normalize_source alert.source)
  let group_key = compute_group_key digest alert.labels rule.grouping_labels
  incident_id ← find_open_incident_by_group_key tenant_id group_key
  if str_eq incident_id ""
      then open_incident alert tenant_id group_key
      else do attach_alert (new_alert alert tenant_id group_key incident_id); pure tt

-- ── An alert that is resolved

unfoldable pub after_close : String → String → Bool → Io Tables (Unit {0})
after_close tenant_id incident_id false = pure tt
after_close tenant_id incident_id true = do
  try (append_history (status_change incident_id tenant_id "open" "resolved"))
  announce incident_updated tenant_id incident_id

unfoldable pub settle : String → String → Io Tables (Unit {0})
settle tenant_id incident_id =
    if str_eq incident_id ""
    then pure tt
    else do closed ← maybe_resolve tenant_id incident_id; after_close tenant_id incident_id closed

unfoldable pub handle_resolved : Alert → Io Tables (Unit {0})
handle_resolved alert = do
  incident_id ← resolve_alert alert.tenant_id alert.fingerprint
  settle alert.tenant_id incident_id

-- The handler of a delivery: the envelope's tenant, and its payload if it can be decoded.
unfoldable pub handle : (String → String) → String → Option Alert → Io Tables (Unit {0})
handle digest tenant_id none = raise dropped
handle digest tenant_id (some alert) =
    if str_eq alert.status "resolved"
    then handle_resolved alert
    else handle_firing digest alert tenant_id
