-- ===== src/Ingestion/Tests.antt =====
-- Runs of the ingestion service (services/ingestion) at concrete inputs, and the theorems applied there.
use sreon_call.Prelude.{◌≡◌, refl, [], ◌∷◌, true, false, ok, err}
use sreon_call.Effects.{failed, Env}
use sreon_call.Incident.Types.{Alert}
use sreon_call.Ingestion.Dedup.{Intake, redis_key, classify}
use sreon_call.Ingestion.Process.{process_alerts}
use sreon_call.Ingestion.Batch.{each_duplicate, classify_lem}
use sreon_call.Ingestion.Lost.{process_alerts_loses}

abbrev disk : Alert
disk = record {
  fingerprint = "disk";
  source = "grafana";
  severity = "high";
  title = "disk full";
  description = "";
  labels = [];
  status = "firing";
  fired_at = 1;
  received_at = 2;
  tenant_id = "acme";
}

abbrev cpu : Alert
cpu = record disk { fingerprint = "cpu" }

abbrev quiet : Intake
quiet = record { keys = []; audit = []; outbox = [] }

abbrev calm : Env Intake
calm = record { state = quiet; faults = [] }

-- The first publish fails.
abbrev broken : Env Intake
broken = record { state = quiet; faults = false ∷ false ∷ true ∷ [] }

classify_lem_example :
    classify (disk ∷ cpu ∷ disk ∷ []) calm ≡ each_duplicate (disk ∷ cpu ∷ disk ∷ []) calm
unfolding redis_key
classify_lem_example = classify_lem (disk ∷ cpu ∷ disk ∷ []) quiet (refl, (refl, (refl, tt)))

process_alerts_loses_example :
    ((process_alerts (disk ∷ cpu ∷ []) broken).0 ≡ err failed)
    × ((process_alerts (disk ∷ cpu ∷ []) broken).1.state.outbox ≡ [])
    × ((process_alerts
          (disk ∷ cpu ∷ [])
          (record { state = (process_alerts (disk ∷ cpu ∷ []) broken).1.state; faults = [] })).0
        ≡ ok tt)
    × ((process_alerts (disk ∷ cpu ∷ []) (record {
      state = (process_alerts (disk ∷ cpu ∷ []) broken).1.state;
      faults = [];
    })).1.state.outbox
        ≡ disk ∷ [])
unfolding redis_key
process_alerts_loses_example = process_alerts_loses disk cpu quiet refl refl refl refl refl refl
