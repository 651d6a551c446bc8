-- ===== src/Ingestion/Webhook/Tests.antt =====
-- Runs of the webhooks of services/ingestion at concrete inputs, and the theorems applied there.
use Prim.Native.String.{◌++◌ as ◌<>◌, compare}
use text.Mathlib.Text.{is_le}
use mathlib.Core.List.Permᴰ.{swap}
use sreon_call.Prelude.{◌≡◌, ◌≢◌, refl, String, str_eq, eq_iff, [], ◌∷◌, false, some, All, sort_by}
use sreon_call.Prelude.Int.{pos}
use sreon_call.Effects.{calm}
use sreon_call.Incident.Types.{Alert}
use sreon_call.Ingestion.Dedup.{Intake}
use sreon_call.Ingestion.Normalize.{
  Library, AmPayload, GrafanaPayload, compute_fingerprint, normalize_alertmanager,
  normalize_grafana,
}
use sreon_call.Ingestion.Normalize.Order.{compute_fingerprint_order, compute_fingerprint_collides}
use sreon_call.Ingestion.Normalize.Known.{IsWellFormed, normalize-IsWellFormed}
use sreon_call.Ingestion.Webhook.{malformed, decoded, post_alertmanager, post_grafana}
use sreon_call.Ingestion.Webhook.Owned.{Publishes, IsAuthorized, webhooks-IsAuthorized}

abbrev library : Library
library = record {
  to_lower = λ s. s;
  format_int = λ n. "1";
  sort_strings = sort_by (λ a b. is_le (compare a b));
  sha256_hex = λ s. s;
  tenant_of = λ hash. some "acme";
}

abbrev disk : Alert
disk = record {
  fingerprint = "";
  source = "grafana";
  severity = "high";
  title = "disk full";
  description = "";
  labels = ("host", "a") ∷ ("job", "b") ∷ [];
  status = "firing";
  fired_at = 1;
  received_at = 2;
  tenant_id = "acme";
}

abbrev resolved_disk : Alert
resolved_disk = record disk { status = "resolved"; labels = ("job", "b") ∷ ("host", "a") ∷ [] }

texts_differ : (s t : String) → str_eq s t ≡ false → s ≢ t
texts_differ s t h e = let k = (eq_iff s t).1 e in cc

compute_fingerprint_order_example :
    compute_fingerprint library disk ≡ compute_fingerprint library resolved_disk
compute_fingerprint_order_example =
    compute_fingerprint_order library disk resolved_disk refl refl refl
      ((texts_differ "host" "job" refl, tt), (tt, tt)) (swap refl refl)

compute_fingerprint_collides_example :
    compute_fingerprint library
      (record disk { labels = ("a", "1" <> ("," <> ("b" <> ("=" <> "2")))) ∷ [] })
    ≡ compute_fingerprint library (record disk { labels = ("a", "1") ∷ ("b", "2") ∷ [] })
compute_fingerprint_collides_example =
    compute_fingerprint_collides library disk "a" "1" "b" "2" refl refl (texts_differ "a" "b" refl)

abbrev am_payload : AmPayload
am_payload = record {
  version = "4";
  status = "firing";
  group_labels = [];
  common_labels = [];
  common_annotations = [];
  alerts =
      record {
        status = "firing";
        labels = ("alertname", "DiskFull") ∷ ("severity", "warn") ∷ [];
        annotations = [];
        starts_at = 3;
        ends_at = 0;
      }
      ∷ [];
}

abbrev grafana_payload : GrafanaPayload
grafana_payload = record {
  title = "disk";
  rule_name = "";
  rule_id = pos 1;
  state = "no_data";
  org_id = pos 1;
  dash_id = pos 0;
  panel_id = pos 2;
  tags = [];
  message = "full";
}

normalize-IsWellFormed_example :
    All IsWellFormed (normalize_alertmanager library am_payload "acme" 5)
    × All IsWellFormed (normalize_grafana library grafana_payload "acme" 5)
normalize-IsWellFormed_example = normalize-IsWellFormed library am_payload grafana_payload "acme" 5

abbrev quiet : Intake
quiet = record { keys = []; audit = []; outbox = [] }

webhooks-IsAuthorized_example :
    Publishes
      (IsAuthorized library "secret")
      quiet
      (post_alertmanager library "secret" 5 (decoded am_payload) (calm quiet)).1.state
    × Publishes
        (IsAuthorized library "secret")
        quiet
        (post_grafana library "secret" 5 malformed (calm quiet)).1.state
webhooks-IsAuthorized_example =
    webhooks-IsAuthorized library "secret" 5 (decoded am_payload) malformed (calm quiet)
