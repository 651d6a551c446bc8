-- ===== src/Broker/Requeue.antt =====
-- Messages that come back: the handlers of services/escalation/internal/consumer/consumer.go and of
-- services/notification/internal/consumer/consumer.go under `process` of pkg/amqp/consume.go.
use sreon_call.Prelude.{
  ◌≡◌, ◌≢◌, refl, String, str_eq, List, [], ◌∷◌, map, Bool, true, false, Option, none, some, find,
  Result, ok, err, if◌then◌else◌,
}
use sreon_call.Effects.{
  Err, not_found, conflict, failed, cancelled, dropped, Env, Io, pure, raise, try, ◌>>=◌,
}
use sreon_call.Broker.Consume.{
  Settled, ack, drop, requeue, Outcome, returned, calmly, settle, process,
}
use sreon_call.Escalation.Types.{
  TenantConfig, IncidentChanged, EscalationTriggered, EscalationExhausted, World,
}
use sreon_call.Escalation.Policies.{config_of}
use sreon_call.Escalation.Redelivery.{HasState, handle_created-Fails}
use sreon_call.Escalation.Worker
use sreon_call.Notification.Types.{Settings, Desk}
use sreon_call.Notification.Consumer.{dropping, drop_error}
use sreon_call.Notification.Consumer
use sreon_call.Notification.Notifier

-- What is left to do after a delivery: the rest, where the message is requeued.
abbrev pub go_on_if : {S : Type 0} → Settled → S → (S → List Settled × S) → List Settled × S
go_on_if requeue s next = let (settled, t) = next s in (requeue ∷ settled, t)
go_on_if ack s next = (ack ∷ [], s)
go_on_if drop s next = (drop ∷ [], s)

-- A message, delivered again as long as it is requeued, each time with failures of its own: how each
-- delivery is settled, and the state after the last.
abbrev pub deliveries :
    {S Envelope : Type 0}
    → (Envelope → Env S → Outcome × Env S)
    → Envelope
    → List (List Bool)
    → S
    → List Settled × S
deliveries handler envelope [] s = ([], s)
deliveries handler envelope (faults ∷ rest) s =
    let (settled, e) = process handler (some envelope) (record { state = s; faults = faults }) in
    go_on_if settled e.state (deliveries handler envelope rest)

-- The handler of the escalation service for a payload of `incident.created`.
abbrev pub on_created : IncidentChanged → Env World → Outcome × Env World
on_created p = calmly (Worker.handle "incident.created" (some p))

settle_kept : (x : Err) → x ≢ dropped → settle (returned (err x)) ≡ requeue
unfolding settle
settle_kept not_found h = refl
settle_kept conflict h = refl
settle_kept failed h = refl
settle_kept dropped h = absurd (h refl)
settle_kept cancelled h = refl

-- Where the tenant has a default policy and the incident an escalation state, `incident.created` is
-- requeued by each of any number of deliveries, whatever fails in each, and nothing ever changes.
pub created_requeued_for_ever :
    (p : IncidentChanged) (s : World) (attempts : List (List Bool)) (c : TenantConfig)
    (policy_id : String)
    → find (config_of p.tenant_id) s.configs ≡ some c
    → c.default_policy_id ≡ some policy_id
    → HasState p.incident_id s
    → deliveries on_created p attempts s ≡ (map (λ _. requeue) attempts, s)
unfolding process
created_requeued_for_ever p s [] c policy_id hc hp h = refl
created_requeued_for_ever p s (faults ∷ rest) c policy_id hc hp h =
    let (x, kept, fails, same) =
      handle_created-Fails p s c policy_id hc hp h (record { state = s; faults = faults }) refl in
    rw fails (
      rw (settle_kept x kept)
        (rw same (rw (created_requeued_for_ever p s rest c policy_id hc hp h) refl)))

-- The handler of the notification service.
abbrev pub on_escalation :
    Settings
    → String × Option EscalationTriggered × Option EscalationExhausted
    → Env Desk
    → Outcome × Env Desk
on_escalation conf (type, triggered, exhausted) =
    calmly (Consumer.handle conf type triggered exhausted)

Unkept : Result Err (Unit {0}) × Env Desk → Type 0
Unkept (r, e) = settle (returned r) ≢ requeue

drop_error-Unkept : (r : Result Err (Unit {0})) (e : Env Desk) → Unkept (drop_error r e)
unfolding Unkept pure raise settle
drop_error-Unkept (ok _) e h = cc
drop_error-Unkept (err _) e h = cc

dropping-Unkept :
    {A : Type 0} (notify : A → Io Desk (Unit {0})) (payload : Option A) (e : Env Desk)
    → Unkept (dropping notify payload e)
unfolding Unkept raise settle try ◌>>=◌
dropping-Unkept notify none e h = cc
dropping-Unkept notify (some ev) e h = let (r, e') = notify ev e in drop_error-Unkept r e' h

if-Unkept :
    (b : Bool) (m n : Io Desk (Unit {0})) (e : Env Desk)
    → Unkept (m e)
    → Unkept (n e)
    → Unkept ((if b then m else n) e)
if-Unkept true m n e hm hn = hm
if-Unkept false m n e hm hn = hn

pure-Unkept : (e : Env Desk) → Unkept (pure tt e)
unfolding Unkept pure settle
pure-Unkept e h = cc

handle-Unkept :
    (conf : Settings) (type : String) (triggered : Option EscalationTriggered)
    (exhausted : Option EscalationExhausted) (e : Env Desk)
    → Unkept (Consumer.handle conf type triggered exhausted e)
unfolding Consumer.handle
handle-Unkept conf type triggered exhausted e =
    if-Unkept (str_eq type "escalation.triggered") _ _ e
      (dropping-Unkept (Notifier.notify_triggered conf) triggered e)
      (if-Unkept (str_eq type "escalation.exhausted") _ _ e
        (dropping-Unkept (Notifier.notify_exhausted conf) exhausted e) (pure-Unkept e))

-- The notification service requeues no message, whatever it holds and whatever fails.
pub notification-ne-requeue :
    (conf : Settings)
    (envelope : Option (String × Option EscalationTriggered × Option EscalationExhausted))
    (e : Env Desk)
    → (process (on_escalation conf) envelope e).0 ≢ requeue
unfolding process Unkept
notification-ne-requeue conf none e h = cc
notification-ne-requeue conf (some (type, triggered, exhausted)) e h =
    handle-Unkept conf type triggered exhausted e h
