-- ===== src/Ingestion/Webhook.antt =====
-- The webhooks of services/ingestion: internal/middleware/tenant.go, internal/tokenstore/tokenstore.go,
-- HandleAlertmanager and HandleGrafana of internal/handler. The limit of requests per address is left
-- out.
pub mod Owned
mod Tests
use sreon_call.Prelude.{
  ℕ, String, str_eq, List, [], ◌∷◌, Bool, Option, none, some, if◌then◌else◌, Result, ok, err,
}
use sreon_call.Effects.{Err, Io, call, pure, try, ◌>>=◌}
use sreon_call.Effects.Http.{Reply, no_content, reply, write_error}
use sreon_call.Incident.Types.{Alert}
use sreon_call.Ingestion.Dedup.{Intake}
use sreon_call.Ingestion.Process.{process_alerts}
use sreon_call.Ingestion.Normalize.{
  Library, AmPayload, GrafanaPayload, normalize_alertmanager, normalize_grafana,
}

abbrev pub Answer : Type 0
Answer = Io Intake (Reply (Unit {0}))

-- A body over four megabytes, one that is not of the right form, or a payload.
pub data Body (A : Type 0) : Type 0 where
  unreadable malformed : Body A
  decoded : A → Body A

abbrev pub answer_processed : Result Err (Unit {0}) → Answer
answer_processed (ok _) = reply 200 no_content
answer_processed (err _) = write_error 503 "failed to process alerts"

unfoldable pub process_and_answer : List Alert → Answer
process_and_answer alerts = do r ← try (process_alerts alerts); answer_processed r

abbrev pub or_empty : Option String → String
or_empty none = ""
or_empty (some tenant_id) = tenant_id

module _ (lib : Library) where
  unfoldable pub get_tenant_id : String → Io Intake String
  get_tenant_id token_hash = call λ s. (ok (or_empty (lib.tenant_of token_hash)), s)

  abbrev pub with_tenant : Result Err String → (String → Answer) → Answer
  with_tenant (err _) next = write_error 401 "invalid token"
  with_tenant (ok tenant_id) next =
      if str_eq tenant_id "" then write_error 401 "invalid token" else next tenant_id

  -- The middleware `Tenant`.
  unfoldable pub tenant : String → (String → Answer) → Answer
  tenant token next =
      if str_eq token ""
      then write_error 401 "missing X-Webhook-Token"
      else do r ← try (get_tenant_id (lib.sha256_hex token)); with_tenant r next

  unfoldable pub handle_alertmanager : ℕ → Body AmPayload → String → Answer
  handle_alertmanager now unreadable tenant_id = write_error 400 "failed to read body"
  handle_alertmanager now malformed tenant_id = write_error 400 "invalid alertmanager payload"
  handle_alertmanager now (decoded p) tenant_id =
      process_and_answer (normalize_alertmanager lib p tenant_id now)

  unfoldable pub handle_grafana : ℕ → Body GrafanaPayload → String → Answer
  handle_grafana now unreadable tenant_id = write_error 400 "failed to read body"
  handle_grafana now malformed tenant_id = write_error 400 "invalid grafana payload"
  handle_grafana now (decoded p) tenant_id =
      process_and_answer (normalize_grafana lib p tenant_id now)

  -- The two routes.
  unfoldable pub post_alertmanager : String → ℕ → Body AmPayload → Answer
  post_alertmanager token now body = tenant token (handle_alertmanager now body)

  unfoldable pub post_grafana : String → ℕ → Body GrafanaPayload → Answer
  post_grafana token now body = tenant token (handle_grafana now body)
