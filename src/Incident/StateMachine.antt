-- ===== src/Incident/StateMachine.antt =====
-- services/incident/internal/statemachine/statemachine.go. A status is a text, as in the source.
use sreon_call.Prelude.{String, str_eq, Bool, false, ◌||◌, Result, ok, err, if◌then◌else◌}

-- `ErrInvalidTransition{From, To}`.
pub record InvalidTransition : Type 0 where
  pub from : String
  pub to : String

unfoldable pub allowed : String → String → Bool
allowed from to =
    if str_eq from "open"
    then str_eq to "acknowledged" || str_eq to "resolved"
    else if str_eq from "acknowledged"
    then str_eq to "resolved"
    else if str_eq from "resolved"
    then str_eq to "open"
    else false

unfoldable pub validate : String → String → Result InvalidTransition (Unit {0})
validate from to = if allowed from to then ok tt else err (record { from = from; to = to })
