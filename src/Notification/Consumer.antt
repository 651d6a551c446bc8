-- ===== src/Notification/Consumer.antt =====
-- services/notification/internal/consumer/consumer.go.
use sreon_call.Prelude.{String, str_eq, Option, none, some, if◌then◌else◌, Result, ok, err}
use sreon_call.Effects.{Err, dropped, Io, pure, raise, try, ◌>>=◌}
use sreon_call.Escalation.Types.{EscalationTriggered, EscalationExhausted}
use sreon_call.Notification.Types.{Desk, Settings}
use sreon_call.Notification.Notifier.{notify_triggered, notify_exhausted}

-- `Drop`: every error becomes one that is not requeued.
abbrev pub drop_error : Result Err (Unit {0}) → Io Desk (Unit {0})
drop_error (ok _) = pure tt
drop_error (err _) = raise dropped

abbrev pub dropping : {A : Type 0} → (A → Io Desk (Unit {0})) → Option A → Io Desk (Unit {0})
dropping notify none = raise dropped
dropping notify (some ev) = do r ← try (notify ev); drop_error r

-- By the envelope's type, with each payload if it can be decoded so.
unfoldable pub handle :
    Settings → String → Option EscalationTriggered → Option EscalationExhausted → Io Desk (Unit {0})
handle conf type triggered exhausted =
    if str_eq type "escalation.triggered"
    then dropping (notify_triggered conf) triggered
    else if str_eq type "escalation.exhausted"
    then dropping (notify_exhausted conf) exhausted
    else pure tt
