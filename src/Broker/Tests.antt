-- ===== src/Broker/Tests.antt =====
-- The theorems on messages applied at concrete inputs.
use sreon_call.Prelude.{
  ◌≡◌, ◌≢◌, refl, [], ◌∷◌, map, true, false, none, some, ltb, if◌then◌else◌, ◌^◌, ◌*◌, List, Bool,
}
use sreon_call.Escalation.Tests.{world, created, default_of_acme}
use sreon_call.Broker.Consume.{
  requeue, process, backoff_after, second, max_backoff, concurrency, prefetch, handler_timeout,
}
use sreon_call.Broker.Backoff.{backoff_after_lem}
use sreon_call.Broker.Requeue.{
  on_created, on_escalation, deliveries, created_requeued_for_ever, notification-ne-requeue,
}
use sreon_call.Notification.Tests.{settings, desk, event}

backoff_after_lem_example : backoff_after 5 ≡ (if ltb 5 5 then 2 ^ 5 * second else max_backoff)
backoff_after_lem_example = backoff_after_lem 5

abbrev two_tries : List (List Bool)
two_tries = (false ∷ true ∷ []) ∷ [] ∷ []

created_requeued_for_ever_example :
    deliveries on_created created two_tries world ≡ (map (λ _. requeue) two_tries, world)
created_requeued_for_ever_example =
    created_requeued_for_ever created world two_tries default_of_acme "p1" refl refl refl

notification-ne-requeue_example :
    (process
      (on_escalation settings)
      (some ("escalation.triggered", some event, none))
      (record { state = desk; faults = true ∷ [] })).0
    ≢ requeue
notification-ne-requeue_example =
    notification-ne-requeue settings (some ("escalation.triggered", some event, none))
      (record { state = desk; faults = true ∷ [] })

-- Out of range an option is replaced.
options : (concurrency 0 ≡ 1) × (prefetch 0 4 ≡ 4) × (handler_timeout 0 ≡ 30 * second)
unfolding concurrency prefetch handler_timeout
options = (refl, refl, refl)
