-- ===== src/Ingestion/Process.antt =====
-- `processAlerts` of services/ingestion/internal/handler/handler.go, with SaveRawAlerts
-- (services/ingestion/internal/store/store.go) and PublishAlertPayload
-- (services/ingestion/internal/publisher/publisher.go). An alert stands for its JSON, which
-- encoding/json writes without an error. Metrics and logs are left out.
use sreon_call.Prelude.{List, [], ◌∷◌, ◌++◌, Bool, true, false, map, Result, ok, err}
use sreon_call.Effects.{Err, Io, call, pure, raise, try, ◌>>=◌, ◌>>◌}
use sreon_call.Incident.Types.{Alert}
use sreon_call.Ingestion.Dedup.{Intake, classify, clear}

abbrev pub zip : {A B : Type 0} → List A → List B → List (A × B)
zip [] bs = []
zip (a ∷ more) [] = []
zip (a ∷ more) (b ∷ bs) = (a, b) ∷ zip more bs

unfoldable pub save_raw_alerts : List (Alert × Bool) → Io Intake (Unit {0})
save_raw_alerts [] = pure tt
save_raw_alerts (i ∷ is) = call λ s. (ok tt, record s { audit = s.audit ++ (i ∷ is) })

unfoldable pub publish_alert : Alert → Io Intake (Unit {0})
publish_alert alert = call λ s. (ok tt, record s { outbox = s.outbox ++ (alert ∷ []) })

-- A publish that fails gives its key back, whether that succeeds or not, and ends the batch.
abbrev pub or_roll_back :
    Alert → Result Err (Unit {0}) → Io Intake (Unit {0}) → Io Intake (Unit {0})
or_roll_back alert (ok _) next = next
or_roll_back alert (err x) next = do try (clear alert); raise x

unfoldable pub publish_all : List (Alert × Bool) → Io Intake (Unit {0})
publish_all [] = pure tt
publish_all ((alert, true) ∷ rest) = publish_all rest
publish_all ((alert, false) ∷ rest) = do
  r ← try (publish_alert alert)
  or_roll_back alert r (publish_all rest)

-- The alerts pass where the cache does not answer.
abbrev pub or_all_new : List Alert → Result Err (List Bool) → List Bool
or_all_new alerts (ok dup) = dup
or_all_new alerts (err x) = map (λ _. false) alerts

unfoldable pub process_some : List Alert → Io Intake (Unit {0})
process_some alerts = do
  answer ← try (classify alerts)
  let items = zip alerts (or_all_new alerts answer)
  try (save_raw_alerts items)
  publish_all items

unfoldable pub process_alerts : List Alert → Io Intake (Unit {0})
process_alerts [] = pure tt
process_alerts (a ∷ more) = process_some (a ∷ more)
