-- ===== src/Ingestion/Batch.antt =====
-- A batch against its alerts one by one: `Classify` and `IsDuplicate` of
-- services/ingestion/internal/dedup/dedup.go.
use sreon_call.Prelude.{◌≡◌, refl, String, List, [], ◌∷◌, Bool, false, All, Result, ok}
use sreon_call.Effects.{Err, Io, call, pure, ◌>>=◌}
use sreon_call.Incident.Types.{Alert}
use sreon_call.Ingestion.Dedup.{
  Intake, redis_key, with_key, set_each, is_resolved, set_keys_of, del_keys_of, spread, classify,
  apply, is_duplicate, set_nx,
}

-- `IsDuplicate` for each alert in turn.
abbrev pub each_duplicate : List Alert → Io Intake (List Bool)
each_duplicate [] = pure []
each_duplicate (a ∷ more) = do dup ← is_duplicate a; rest ← each_duplicate more; pure (dup ∷ rest)

abbrev pub Firing : Alert → Type 0
Firing a = is_resolved a ≡ false

no_dels : (alerts : List Alert) → All Firing alerts → del_keys_of alerts ≡ []
unfolding del_keys_of
no_dels [] h = refl
no_dels (a ∷ more) h = rw (h.0) (no_dels more h.1)

-- Every alert that fires has a key of its own in the pipeline.
sets-head :
    (a : Alert) (more : List Alert)
    → Firing a
    → set_keys_of (a ∷ more) ≡ redis_key a ∷ set_keys_of more
unfolding set_keys_of
sets-head a more h = rw h refl

-- What the pipeline answers for these keys, put back to the alerts, with the keys that it leaves.
abbrev batch : List Alert → List String → Result Err (List Bool) × List String
batch alerts keys =
    let (new, after) = set_each (set_keys_of alerts) keys in (ok (spread alerts new), after)

each-batch :
    (alerts : List Alert) (s : Intake)
    → All Firing alerts
    → each_duplicate alerts (record { state = s; faults = [] }) ≡ (
      ok (spread alerts (set_each (set_keys_of alerts) s.keys).0),
      record { state = record s { keys = (set_each (set_keys_of alerts) s.keys).1 }; faults = [] },
    )
unfolding set_keys_of spread is_duplicate set_nx call pure ◌>>=◌
each-batch [] s h = refl
each-batch (a ∷ more) s h =
    rw (h.0)
      (rw (each-batch more (record s { keys = with_key (redis_key a) s.keys }) h.1) (rw (h.0) refl))

apply-sets :
    (k : String) (ks : List String) (s : Intake)
    → apply (k ∷ ks) [] (record { state = s; faults = [] }) ≡ (
      ok (set_each (k ∷ ks) s.keys).0,
      record { state = record s { keys = (set_each (k ∷ ks) s.keys).1 }; faults = [] },
    )
unfolding apply call
apply-sets k ks s = refl

-- A batch of alerts that all fire is classified as by `IsDuplicate` for each in turn, with the same keys
-- left, where no call fails: an alert that stands twice in the batch is a duplicate of its first.
pub classify_lem :
    (alerts : List Alert) (s : Intake)
    → All Firing alerts
    → classify alerts (record { state = s; faults = [] })
      ≡ each_duplicate alerts (record { state = s; faults = [] })
unfolding classify pure ◌>>=◌
classify_lem [] s h = refl
classify_lem (a ∷ more) s h = rw (no_dels (a ∷ more) h) (
    rw (each-batch (a ∷ more) s h)
      (rw (sets-head a more h.0) (rw (apply-sets (redis_key a) (set_keys_of more) s) refl)))
