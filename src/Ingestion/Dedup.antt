-- ===== src/Ingestion/Dedup.antt =====
-- services/ingestion/internal/dedup/dedup.go and redis.go. The cache is the list of the keys that it
-- holds, which expire on their own; a pipeline is one call, and one that fails does nothing.
use Prim.Native.String.{◌++◌ as ◌<>◌}
use sreon_call.Prelude.{
  String, str_eq, List, [], ◌∷◌, Bool, false, not, if◌then◌else◌, Result, ok, any, filter,
}
use sreon_call.Effects.{Err, Io, call, pure, ◌>>=◌}
use sreon_call.Incident.Types.{Alert}

-- What the service reaches: the cache, the table `ingestion.raw_alerts`, with an alert and whether it was
-- suppressed, and the broker.
pub record Intake : Type 0 where
  pub keys : List String
  pub audit : List (Alert × Bool)
  pub outbox : List Alert

unfoldable pub redis_key : Alert → String
redis_key alert = "oncall:dedup:" <> alert.fingerprint

abbrev pub has_key : String → List String → Bool
has_key key keys = any (str_eq key) keys

-- SETNX and DEL.
abbrev pub with_key : String → List String → List String
with_key key keys = if has_key key keys then keys else key ∷ keys

abbrev pub without_key : String → List String → List String
without_key key keys = filter (λ k. not (str_eq key k)) keys

unfoldable pub set_nx : String → Io Intake Bool
set_nx key = call λ s. (ok (not (has_key key s.keys)), record s { keys = with_key key s.keys })

unfoldable pub del : String → Io Intake (Unit {0})
del key = call λ s. (ok tt, record s { keys = without_key key s.keys })

-- The pipeline: which keys were new, and the keys that it leaves.
abbrev pub set_each : List String → List String → List Bool × List String
set_each [] keys = ([], keys)
set_each (k ∷ ks) keys =
    let (new, after) = set_each ks (with_key k keys) in (not (has_key k keys) ∷ new, after)

abbrev pub del_each : List String → List String → List String
del_each [] keys = keys
del_each (k ∷ ks) keys = del_each ks (without_key k keys)

abbrev pub run_pipeline : List String → List String → Intake → Result Err (List Bool) × Intake
run_pipeline set_keys del_keys s =
    let (new, keys) = set_each set_keys s.keys in
    (ok new, record s { keys = del_each del_keys keys })

unfoldable pub apply : List String → List String → Io Intake (List Bool)
apply [] [] = pure []
apply (k ∷ ks) del_keys = call (run_pipeline (k ∷ ks) del_keys)
apply [] (d ∷ ds) = call (run_pipeline [] (d ∷ ds))

-- ── The deduplicator

unfoldable pub is_duplicate : Alert → Io Intake Bool
is_duplicate alert = do set ← set_nx (redis_key alert); pure (not set)

unfoldable pub clear : Alert → Io Intake (Unit {0})
clear alert = del (redis_key alert)

abbrev pub is_resolved : Alert → Bool
is_resolved alert = str_eq alert.status "resolved"

unfoldable pub set_keys_of : List Alert → List String
set_keys_of [] = []
set_keys_of (a ∷ more) =
    let rest = set_keys_of more in if is_resolved a then rest else redis_key a ∷ rest

unfoldable pub del_keys_of : List Alert → List String
del_keys_of [] = []
del_keys_of (a ∷ more) =
    let rest = del_keys_of more in if is_resolved a then redis_key a ∷ rest else rest

-- The answers of the pipeline put back to the alerts that fire; the others are no duplicates.
unfoldable pub spread : List Alert → List Bool → List Bool
spread [] new = []
spread (a ∷ more) [] = false ∷ spread more []
spread (a ∷ more) (n ∷ new) =
    let kept = spread more (n ∷ new) in
    let used = spread more new in if is_resolved a then false ∷ kept else not n ∷ used

abbrev pub classify_some : List Alert → Io Intake (List Bool)
classify_some alerts = do
  new ← apply (set_keys_of alerts) (del_keys_of alerts)
  pure (spread alerts new)

unfoldable pub classify : List Alert → Io Intake (List Bool)
classify [] = pure []
classify (a ∷ more) = classify_some (a ∷ more)
