-- ===== src/Escalation/Worker.antt =====
-- What drives the escalator: the consumer of incident events
-- (services/escalation/internal/consumer/consumer.go) and the monitor of timeouts
-- (services/escalation/internal/monitor/monitor.go).
use sreon_call.Prelude.{
  String, str_eq, List, [], ◌∷◌, ◌||◌, Option, none, some, if◌then◌else◌, ok, err,
}
use sreon_call.Effects.{dropped, Io, pure, raise, try, ◌>>=◌, ◌>>◌}
use sreon_call.Escalation.Types.{EscalationState, IncidentChanged, World}
use sreon_call.Escalation.States.{list_expired_states}
use sreon_call.Escalation.Escalator.{advance_or_exhaust, stop, auto_assign}

-- By the envelope's type.
unfoldable pub handle_payload : String → IncidentChanged → Io World (Unit {0})
handle_payload type p =
    if str_eq type "incident.created"
    then auto_assign p.tenant_id (if str_eq p.tenant_slug "" then p.tenant_id else p.tenant_slug)
        p.incident_id (record { title = p.title; severity = p.severity; status = p.status })
    else if str_eq type "incident.updated"
    then if str_eq p.status "acknowledged" || str_eq p.status "resolved"
      then stop p.tenant_id p.incident_id p.status
      else pure tt
    else pure tt

-- The handler of a delivery: the envelope's type, and its payload if it can be decoded.
unfoldable pub handle : String → Option IncidentChanged → Io World (Unit {0})
handle type none = raise dropped
handle type (some p) = handle_payload type p

-- The loop over the expired states; an error is logged.
unfoldable pub advance_all : List EscalationState → Io World (Unit {0})
advance_all [] = pure tt
advance_all (st ∷ sts) = do try (advance_or_exhaust st); advance_all sts

unfoldable pub step : Io World (Unit {0})
step = do
  states ← try (list_expired_states 50)
  elim states [ ok sts ↦ advance_all sts | err x ↦ pure tt ]
