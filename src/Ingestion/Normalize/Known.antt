-- ===== src/Ingestion/Normalize/Known.antt =====
-- What the severities and the statuses of alerts are
-- (services/ingestion/internal/handler/normalize.go, alertmanager.go, grafana.go).
use sreon_call.Prelude.{
  ℕ, ◌≡◌, refl, inl, inr, ◌⊎◌, String, str_eq, List, [], ◌∷◌, map, Bool, true, false, ◌||◌,
  if◌then◌else◌, All,
}
use sreon_call.Incident.Types.{Alert, label_of}
use sreon_call.Ingestion.Normalize.{
  Library, map_severity, am_status, grafana_status, AmAlert, AmPayload, GrafanaPayload, am_alert,
  grafana_alert, grafana_labels, normalize_alertmanager, normalize_grafana,
}

-- The constants of `AlertSeverity` and of `AlertStatus`.
abbrev pub IsSeverity : String → Type 0
IsSeverity s = (s ≡ "critical") ⊎ (s ≡ "high") ⊎ (s ≡ "warning") ⊎ (s ≡ "info")

abbrev pub IsStatus : String → Type 0
IsStatus s = (s ≡ "firing") ⊎ (s ≡ "resolved")

abbrev pub IsWellFormed : Alert → Type 0
IsWellFormed a = IsSeverity a.severity × IsStatus a.status

one_of_four :
    (a b c : Bool)
    → IsSeverity (if a then "critical" else if b then "high" else if c then "warning" else "info")
one_of_four true b c = inl refl
one_of_four false true c = inr (inl refl)
one_of_four false false true = inr (inr (inl refl))
one_of_four false false false = inr (inr (inr refl))

map_severity-IsSeverity : (lib : Library) (s : String) → IsSeverity (map_severity lib s)
unfolding map_severity
map_severity-IsSeverity lib s =
    let lower = lib.to_lower s in
    one_of_four (str_eq lower "critical") (str_eq lower "high")
      (str_eq lower "warning" || str_eq lower "warn")

one_of_two : (b : Bool) → IsStatus (if b then "resolved" else "firing")
one_of_two true = inr refl
one_of_two false = inl refl

am_alert-IsWellFormed :
    (lib : Library) (tenant_id : String) (now : ℕ) (alerts : List AmAlert)
    → All IsWellFormed (map (am_alert lib tenant_id now) alerts)
unfolding am_alert am_status
am_alert-IsWellFormed lib tenant_id now [] = tt
am_alert-IsWellFormed lib tenant_id now (a ∷ more) = (
  (
    map_severity-IsSeverity lib (label_of "severity" a.labels),
    one_of_two (str_eq a.status "resolved"),
  ),
  am_alert-IsWellFormed lib tenant_id now more,
)

-- Whatever a payload says, the severity of each alert that comes of it is one of the four, and its status
-- one of the two.
pub normalize-IsWellFormed :
    (lib : Library) (p : AmPayload) (q : GrafanaPayload) (tenant_id : String) (now : ℕ)
    → All IsWellFormed (normalize_alertmanager lib p tenant_id now)
      × All IsWellFormed (normalize_grafana lib q tenant_id now)
unfolding normalize_alertmanager normalize_grafana grafana_alert grafana_status
normalize-IsWellFormed lib p q tenant_id now = (
  am_alert-IsWellFormed lib tenant_id now p.alerts,
  (
    (
      map_severity-IsSeverity lib (label_of "severity" (grafana_labels lib q)),
      one_of_two (str_eq q.state "ok" || str_eq q.state "paused"),
    ),
    tt,
  ),
)
