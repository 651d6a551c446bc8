-- ===== src/Incident/Incidents.antt =====
-- Incidents and their labels, alerts and history in services/incident/internal/store/store.go: each SQL
-- statement is one call that acts on the tables of services/incident/migrations, with their keys. Ids
-- are well-formed UUIDs; Postgres refuses others, which is a call that fails.
use sreon_call.Prelude.{
  ℕ, suc, String, str_eq, List, [], ◌∷◌, ◌++◌, map, Bool, true, false, not, ◌&&◌, Option, none,
  some, ltb, if◌then◌else◌, Result, ok, err, length, filter, any, find, update_where,
}
use sreon_call.Effects.{
  Err, not_found, conflict, failed, Io, call, pure, raise, try, gets, with_tx, ◌>>=◌, ◌>>◌,
}
use sreon_call.Escalation.Policies.{found}
use sreon_call.Incident.Types.{Labels, Incident, IncidentAlert, HistoryEntry, LabelRow, Tables}

-- A foreign key to `incident.incidents`.
abbrev pub exists_incident : String → Tables → Bool
exists_incident id s = any (λ (r : Incident). str_eq r.id id) s.incidents

unfoldable pub create_incident : Incident → Io Tables Incident
create_incident inc = call λ s.
    let id = s.uuid s.next_id in
    let row = record inc {
      id = id;
      labels = [];
      acknowledged_at = none;
      acknowledged_by = none;
      resolved_at = none;
      created_at = s.clock;
      updated_at = s.clock;
    } in
    (
      ok (record inc { id = id; created_at = s.clock; updated_at = s.clock }),
      record s { incidents = s.incidents ++ (row ∷ []); next_id = suc s.next_id },
    )

-- ── Labels

abbrev pub label_key : String → String → LabelRow → Bool
label_key incident_id key r = str_eq r.incident_id incident_id && str_eq r.key key

abbrev pub upsert_label : String → String → String → List LabelRow → List LabelRow
upsert_label incident_id key value rows =
    if any (label_key incident_id key) rows
    then update_where (label_key incident_id key) (λ r. record r { value = value }) rows
    else rows ++ (record { incident_id = incident_id; key = key; value = value } ∷ [])

abbrev pub upsert_labels : String → Labels → List LabelRow → List LabelRow
upsert_labels incident_id [] rows = rows
upsert_labels incident_id ((k, v) ∷ rest) rows =
    upsert_labels incident_id rest (upsert_label incident_id k v rows)

unfoldable pub merge_labels : String → Labels → Io Tables (Unit {0})
merge_labels incident_id [] = pure tt
merge_labels incident_id (l ∷ ls) = call λ s.
    if exists_incident incident_id s
    then (ok tt, record s { labels = upsert_labels incident_id (l ∷ ls) s.labels })
    else (err failed, s)

unfoldable pub get_labels : String → Io Tables Labels
get_labels incident_id = call λ s. (
  ok (
      map (λ (r : LabelRow). (r.key, r.value))
        (filter (λ r. str_eq r.incident_id incident_id) s.labels)),
  s,
)

unfoldable pub load_labels : Incident → Io Tables Incident
load_labels inc = do labels ← get_labels inc.id; pure (record inc { labels = labels })

-- ── History

unfoldable pub append_history : HistoryEntry → Io Tables (Unit {0})
append_history h = call λ s.
    let row = record h { id = s.uuid s.next_id; occurred_at = s.clock } in
    if exists_incident h.incident_id s
    then (ok tt, record s { history = s.history ++ (row ∷ []); next_id = suc s.next_id })
    else (err failed, s)

abbrev pub append_if : Option HistoryEntry → String → Io Tables (Unit {0})
append_if none incident_id = pure tt
append_if (some h) incident_id = append_history (record h { incident_id = incident_id })

-- ── Alerts

-- The primary key is the one key of the table, so ON CONFLICT never meets a row.
unfoldable pub attach_alert : IncidentAlert → Io Tables IncidentAlert
attach_alert ia = call λ s.
    let row = record ia { id = s.uuid s.next_id; attached_at = s.clock } in
    if exists_incident ia.incident_id s
    then (ok row, record s { alerts = s.alerts ++ (row ∷ []); next_id = suc s.next_id })
    else (err failed, s)

unfoldable pub create_incident_tx :
    Incident → Labels → Option HistoryEntry → IncidentAlert → Io Tables Incident
create_incident_tx inc labels hist ia = with_tx do
  inc' ← create_incident inc
  merge_labels inc'.id labels
  append_if hist inc'.id
  attach_alert (record ia { incident_id = inc'.id })
  pure inc'

-- ── Reading and changing an incident

abbrev pub owned_incident : String → String → Incident → Bool
owned_incident tenant_id id r = str_eq r.id id && str_eq r.tenant_id tenant_id

unfoldable pub select_incident : String → String → Io Tables Incident
select_incident tenant_id id = call λ s. (found (find (owned_incident tenant_id id) s.incidents), s)

unfoldable pub get_incident : String → String → Io Tables Incident
get_incident tenant_id id = do inc ← select_incident tenant_id id; load_labels inc

-- WHERE id AND tenant_id AND status=$expected.
abbrev pub in_status : String → String → String → Incident → Bool
in_status tenant_id id expected r = owned_incident tenant_id id r && str_eq r.status expected

-- The three forms of SET.
abbrev pub set_status : String → String → ℕ → Incident → Incident
set_status status author_id now r =
    if str_eq status "acknowledged"
    then record r {
      status = status;
      acknowledged_at = some now;
      acknowledged_by = some author_id;
      updated_at = now;
    }
    else if str_eq status "resolved"
    then record r { status = status; resolved_at = some now; updated_at = now }
    else record r {
      status = status;
      resolved_at = none;
      acknowledged_at = none;
      acknowledged_by = none;
      updated_at = now;
    }

abbrev pub updated : (Incident → Incident) → Option Incident → Result Err Incident
updated f none = err not_found
updated f (some r) = ok (f r)

-- UPDATE … RETURNING: the first row as it is written.
abbrev pub guarded_update :
    String → String → String → String → String → ℕ → Tables → Result Err Incident × Tables
guarded_update tenant_id id status expected author_id now s =
    let rows =
      update_where (in_status tenant_id id expected) (set_status status author_id now)
        s.incidents in
    (
      updated (set_status status author_id now)
          (find (in_status tenant_id id expected) s.incidents),
      record s { incidents = rows },
    )

-- No row is a lost race.
abbrev pub or_conflict : Result Err Incident → Io Tables Incident
or_conflict (ok inc) = pure inc
or_conflict (err not_found) = raise conflict
or_conflict (err x) = raise x

unfoldable pub transition_body :
    String → String → String → String → String → Option HistoryEntry → ℕ → Io Tables Incident
transition_body tenant_id id status expected author_id hist now = do
  r ← try (call (guarded_update tenant_id id status expected author_id now))
  row ← or_conflict r
  inc ← load_labels row
  append_if hist id
  pure inc

unfoldable pub transition_status :
    String → String → String → String → String → Option HistoryEntry → Io Tables Incident
transition_status tenant_id id status expected author_id hist = do
  now ← gets (λ s. s.clock)
  with_tx (transition_body tenant_id id status expected author_id hist now)

-- ── What the alerts say

abbrev pub firing_of : String → IncidentAlert → Bool
firing_of incident_id a = str_eq a.incident_id incident_id && str_eq a.status "firing"

unfoldable pub count_firing : String → Io Tables ℕ
count_firing incident_id = call λ s. (ok (length (filter (firing_of incident_id) s.alerts)), s)

-- WHERE id AND tenant_id AND status != 'resolved'.
abbrev pub unresolved : String → String → Incident → Bool
unresolved tenant_id id r = owned_incident tenant_id id r && not (str_eq r.status "resolved")

unfoldable pub close_incident : String → String → ℕ → Io Tables (Unit {0})
close_incident tenant_id id now = call λ s. (
  ok tt,
  record s {
    incidents =
        update_where (unresolved tenant_id id)
          (λ r. record r { status = "resolved"; resolved_at = some now; updated_at = now })
          s.incidents;
  },
)

unfoldable pub maybe_resolve : String → String → Io Tables Bool
maybe_resolve tenant_id id = do
  firing ← count_firing id
  if ltb 0 firing
      then pure false
      else do now ← gets (λ s. s.clock); close_incident tenant_id id now; pure true

-- The incident of an alert is there and is not resolved.
abbrev pub has_open : List Incident → String → Bool
has_open incidents id =
    any (λ (i : Incident). str_eq i.id id && not (str_eq i.status "resolved")) incidents

abbrev pub incident_id_or_empty : Option IncidentAlert → String
incident_id_or_empty none = ""
incident_id_or_empty (some a) = a.incident_id

-- LIMIT 1 without an order: the first row that the table has.
unfoldable pub find_open_incident_by_group_key : String → String → Io Tables String
find_open_incident_by_group_key tenant_id group_key = call λ s. (
  ok (
      incident_id_or_empty (
        find
          (λ (a : IncidentAlert).
            str_eq a.tenant_id tenant_id
            && (str_eq a.group_key group_key && has_open s.incidents a.incident_id))
          s.alerts)),
  s,
)

unfoldable pub find_incident_by_fingerprint : String → String → Io Tables String
find_incident_by_fingerprint tenant_id fingerprint = call λ s. (
  ok (
      incident_id_or_empty (
        find
          (λ (a : IncidentAlert).
            str_eq a.tenant_id tenant_id
            && (str_eq a.fingerprint fingerprint
                && (str_eq a.status "firing" && has_open s.incidents a.incident_id)))
          s.alerts)),
  s,
)

abbrev pub firing_alert : String → String → IncidentAlert → Bool
firing_alert tenant_id fingerprint a =
    str_eq a.tenant_id tenant_id && (str_eq a.fingerprint fingerprint && str_eq a.status "firing")

-- Every row that fires is written; the first one returned is read.
unfoldable pub resolve_alert : String → String → Io Tables String
resolve_alert tenant_id fingerprint = call λ s. (
  ok (incident_id_or_empty (find (firing_alert tenant_id fingerprint) s.alerts)),
  record s {
    alerts =
        update_where (firing_alert tenant_id fingerprint) (λ a. record a { status = "resolved" })
          s.alerts;
  },
)
