-- ===== src/Ingestion/Normalize.antt =====
-- services/ingestion/internal/handler/normalize.go, alertmanager.go and grafana.go: from a payload to
-- alerts. A map is a list of its pairs, each key once.
pub mod Order
pub mod Known
use Prim.Native.String.{◌++◌ as ◌<>◌}
use sreon_call.Prelude.{
  ℕ, String, str_eq, List, [], ◌∷◌, map, Bool, true, false, ◌||◌, Option, none, some, if◌then◌else◌,
}
use sreon_call.Prelude.Int.{ℤ, pos, eq_ℤ}
use sreon_call.Incident.Types.{Labels, label_of, Alert}

-- `strings.ToLower`, `fmt.Sprintf` of a number, `sort.Strings`, the hexadecimal SHA-256, and what the
-- token index answers about a hash.
pub record Library : Type 0 where
  pub to_lower : String → String
  pub format_int : ℤ → String
  pub sort_strings : List String → List String
  pub sha256_hex : String → String
  pub tenant_of : String → Option String

-- ── Fingerprints

abbrev pub keys_of : Labels → List String
keys_of labels = map (λ l. l.0) labels

unfoldable pub write_labels : List String → Labels → String
write_labels [] labels = ""
write_labels (k ∷ ks) labels = k <> ("=" <> (label_of k labels <> ("," <> write_labels ks labels)))

-- The text that is hashed.
unfoldable pub fingerprint_text : Library → Alert → String
fingerprint_text lib a =
    write_labels (lib.sort_strings (keys_of a.labels)) a.labels
    <> ("source=" <> (a.source <> (",tenant=" <> a.tenant_id)))

unfoldable pub compute_fingerprint : Library → Alert → String
compute_fingerprint lib a = lib.sha256_hex (fingerprint_text lib a)

-- `alert.Fingerprint = computeFingerprint(alert)`.
abbrev pub with_fingerprint : Library → Alert → Alert
with_fingerprint lib a = record a { fingerprint = compute_fingerprint lib a }

abbrev pub severity_of : String → String
severity_of lower =
    if str_eq lower "critical"
    then "critical"
    else if str_eq lower "high"
    then "high"
    else if str_eq lower "warning" || str_eq lower "warn"
    then "warning"
    else "info"

unfoldable pub map_severity : Library → String → String
map_severity lib s = severity_of (lib.to_lower s)

-- ── Alertmanager

pub record AmAlert : Type 0 where
  pub status : String
  pub labels : Labels
  pub annotations : Labels
  pub starts_at : ℕ
  pub ends_at : ℕ

pub record AmPayload : Type 0 where
  pub version : String
  pub status : String
  pub group_labels : Labels
  pub common_labels : Labels
  pub common_annotations : Labels
  pub alerts : List AmAlert

unfoldable pub am_status : String → String
am_status s = if str_eq s "resolved" then "resolved" else "firing"

abbrev pub or_else : String → String → String
or_else title other = if str_eq title "" then other else title

unfoldable pub am_alert : Library → String → ℕ → AmAlert → Alert
am_alert lib tenant_id received_at a = with_fingerprint lib (record {
  fingerprint = "";
  source = "alertmanager";
  severity = map_severity lib (label_of "severity" a.labels);
  title = or_else (label_of "summary" a.annotations) (label_of "alertname" a.labels);
  description = label_of "description" a.annotations;
  labels = a.labels;
  status = am_status a.status;
  fired_at = a.starts_at;
  received_at = received_at;
  tenant_id = tenant_id;
})

unfoldable pub normalize_alertmanager : Library → AmPayload → String → ℕ → List Alert
normalize_alertmanager lib p tenant_id received_at =
    map (am_alert lib tenant_id received_at) p.alerts

-- ── Grafana

pub record GrafanaPayload : Type 0 where
  pub title : String
  pub rule_name : String
  pub rule_id : ℤ
  pub state : String
  pub org_id : ℤ
  pub dash_id : ℤ
  pub panel_id : ℤ
  pub tags : Labels
  pub message : String

unfoldable pub grafana_status : String → String
grafana_status state = if str_eq state "ok" || str_eq state "paused" then "resolved" else "firing"

-- `labels[k] = v`.
abbrev pub set_label : String → String → Labels → Labels
set_label key value [] = (key, value) ∷ []
set_label key value ((k, v) ∷ rest) =
    let later = set_label key value rest in
    if str_eq k key then (key, value) ∷ rest else (k, v) ∷ later

abbrev pub set_unless : Bool → String → String → Labels → Labels
set_unless true key value labels = labels
set_unless false key value labels = set_label key value labels

unfoldable pub grafana_labels : Library → GrafanaPayload → Labels
grafana_labels lib p =
    set_unless (eq_ℤ p.panel_id (pos 0)) "grafana_panel_id" (lib.format_int p.panel_id) (
      set_unless (eq_ℤ p.dash_id (pos 0)) "grafana_dashboard_id" (lib.format_int p.dash_id)
        (set_unless (str_eq p.rule_name "") "alertname" p.rule_name p.tags))

unfoldable pub grafana_alert : Library → String → ℕ → GrafanaPayload → Alert
grafana_alert lib tenant_id received_at p = with_fingerprint lib (record {
  fingerprint = "";
  source = "grafana";
  severity = map_severity lib (label_of "severity" (grafana_labels lib p));
  title = or_else p.rule_name p.title;
  description = p.message;
  labels = grafana_labels lib p;
  status = grafana_status p.state;
  fired_at = received_at;
  received_at = received_at;
  tenant_id = tenant_id;
})

unfoldable pub normalize_grafana : Library → GrafanaPayload → String → ℕ → List Alert
normalize_grafana lib p tenant_id received_at = grafana_alert lib tenant_id received_at p ∷ []
