-- ===== src/Incident/Records.antt =====
-- Lists of alerts and history, comments and grouping rules in
-- services/incident/internal/store/store.go, and the default labels of
-- services/incident/internal/domain/incident.go.
use sreon_call.Prelude.{
  suc, String, str_eq, List, [], ◌∷◌, ◌++◌, map, Bool, true, false, not, ◌&&◌, ◌||◌, Option, none,
  some, leb, if◌then◌else◌, ok, err, filter, any, find, sort_by, update_where,
}
use sreon_call.Effects.{not_found, failed, Io, call}
use sreon_call.Escalation.Policies.{affected}
use sreon_call.Incident.Types.{Comment, HistoryEntry, IncidentAlert, GroupingRule, Tables}
use sreon_call.Incident.Incidents.{exists_incident}

unfoldable pub list_incident_alerts : String → String → Io Tables (List IncidentAlert)
list_incident_alerts tenant_id incident_id = call λ s. (
  ok (
      sort_by (λ a b. leb a.attached_at b.attached_at)
        (filter (λ a. str_eq a.incident_id incident_id && str_eq a.tenant_id tenant_id) s.alerts)),
  s,
)

unfoldable pub add_comment : Comment → Io Tables Comment
add_comment c = call λ s.
    let row = record c { id = s.uuid s.next_id; created_at = s.clock } in
    if exists_incident c.incident_id s
    then (ok row, record s { comments = s.comments ++ (row ∷ []); next_id = suc s.next_id })
    else (err failed, s)

unfoldable pub list_comments : String → String → Io Tables (List Comment)
list_comments tenant_id incident_id = call λ s. (
  ok (
      sort_by (λ a b. leb a.created_at b.created_at)
        (filter (λ c. str_eq c.incident_id incident_id && str_eq c.tenant_id tenant_id)
          s.comments)),
  s,
)

abbrev pub owned_comment : String → String → Comment → Bool
owned_comment tenant_id id c = str_eq c.id id && str_eq c.tenant_id tenant_id

unfoldable pub delete_comment : String → String → Io Tables (Unit {0})
delete_comment tenant_id id = call λ s. (
  affected (any (owned_comment tenant_id id) s.comments) not_found,
  record s { comments = filter (λ c. not (owned_comment tenant_id id c)) s.comments },
)

unfoldable pub list_history : String → String → Io Tables (List HistoryEntry)
list_history tenant_id incident_id = call λ s. (
  ok (
      sort_by (λ a b. leb a.occurred_at b.occurred_at)
        (filter (λ h. str_eq h.incident_id incident_id && str_eq h.tenant_id tenant_id) s.history)),
  s,
)

-- ── Grouping rules

unfoldable pub default_grouping_labels : String → List String
default_grouping_labels source =
    if str_eq source "alertmanager" || str_eq source "prometheus"
    then "alertname" ∷ "job" ∷ []
    else "alertname" ∷ []

abbrev pub rule_of : String → String → GroupingRule → Bool
rule_of tenant_id source r = str_eq r.tenant_id tenant_id && str_eq r.source source

-- A rule of the table is no default.
abbrev pub rule_or_default : String → String → Option GroupingRule → GroupingRule
rule_or_default tenant_id source (some r) = record {
  tenant_id = tenant_id;
  source = source;
  grouping_labels = r.grouping_labels;
  is_default = false;
}
rule_or_default tenant_id source none = record {
  tenant_id = tenant_id;
  source = source;
  grouping_labels = default_grouping_labels source;
  is_default = true;
}

unfoldable pub get_grouping_rule : String → String → Io Tables GroupingRule
get_grouping_rule tenant_id source =
    call λ s. (ok (rule_or_default tenant_id source (find (rule_of tenant_id source) s.rules)), s)

unfoldable pub set_grouping_rule : String → String → List String → Io Tables (Unit {0})
set_grouping_rule tenant_id source labels = call λ s.
    let row : GroupingRule = record {
      tenant_id = tenant_id;
      source = source;
      grouping_labels = labels;
      is_default = false;
    } in
    if any (rule_of tenant_id source) s.rules
    then (ok tt, record s { rules = update_where (rule_of tenant_id source) (λ _. row) s.rules })
    else (ok tt, record s { rules = s.rules ++ (row ∷ []) })

unfoldable pub delete_grouping_rule : String → String → Io Tables (Unit {0})
delete_grouping_rule tenant_id source =
    call λ s. (ok tt, record s { rules = filter (λ r. not (rule_of tenant_id source r)) s.rules })

-- Both sources, each with its rule or its default.
unfoldable pub list_grouping_rules : String → Io Tables (List GroupingRule)
list_grouping_rules tenant_id = call λ s. (
  ok (
      map (λ src. rule_or_default tenant_id src (find (rule_of tenant_id src) s.rules))
        ("alertmanager" ∷ "grafana" ∷ [])),
  s,
)
