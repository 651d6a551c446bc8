-- ===== src/Escalation/Handler/Tests.antt =====
-- The theorem on the handlers of services/escalation applied at a concrete input.
use sreon_call.Prelude.{refl, [], ◌∷◌, none, some}
use sreon_call.Prelude.Int.{pos}
use sreon_call.Escalation.Types.{World}
use sreon_call.Escalation.Tests.{world}
use sreon_call.Escalation.Handler.{Library, PolicyBody}
use sreon_call.Escalation.Handler.Timed.{IsTimed}
use sreon_call.Escalation.Handler.Reachable.{
  policies_post, route, here, next, serves, Reach-IsTimed,
}

abbrev library : Library
library = record {
  error_text = λ x. "failed";
  split_commas = λ csv. csv ∷ [];
  trim_space = λ s. s;
  incident_of = none;
}

abbrev bare : World
bare = record world { tiers = []; policies = []; configs = []; states = [] }

abbrev night : PolicyBody
night = record {
  name = "night";
  tiers = record { tier_number = pos 1; timeout_seconds = pos 300; notify_schedule_id = "s1" } ∷ [];
}

Reach-IsTimed_example :
    IsTimed
      (route library
        (policies_post "acme" (some night))
        (record { state = bare; faults = [] })).1.state
Reach-IsTimed_example =
    Reach-IsTimed {lib = library} refl
      (next here (serves (policies_post "acme" (some night)) [] bare))
