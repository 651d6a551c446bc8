-- ===== src/Ingestion/Lost.antt =====
-- A batch of which one alert cannot be published, and its retry: `processAlerts` of
-- services/ingestion/internal/handler/handler.go.
use sreon_call.Prelude.{
  ◌≡◌, refl, inl, inr, Bool-cases, String, str_eq, eq_iff, List, [], ◌∷◌, ◌++◌, true, false, ok,
  err,
}
use sreon_call.Effects.{failed, call, pure, raise, try, ◌>>=◌}
use sreon_call.Incident.Types.{Alert}
use sreon_call.Ingestion.Dedup.{
  Intake, redis_key, has_key, without_key, is_resolved, set_keys_of, del_keys_of, spread, classify,
  apply, clear, del,
}
use sreon_call.Ingestion.Process.{
  process_alerts, process_some, publish_all, publish_alert, save_raw_alerts,
}

str_eq_refl : (t : String) → str_eq t t ≡ true
str_eq_refl t = (eq_iff t t).1 refl

-- A key that is deleted is gone, and the others stay.
has_key-without_key : (k : String) (keys : List String) → has_key k (without_key k keys) ≡ false
has_key-without_key k [] = refl
has_key-without_key k (x ∷ xs) = elim (Bool-cases (str_eq k x)) [
  | inl hit ↦ rw hit (has_key-without_key k xs)
  | inr miss ↦ rw miss (rw miss (has_key-without_key k xs))
]

has_key-kept :
    (k l : String) (keys : List String)
    → str_eq k l ≡ false
    → has_key l (without_key k (l ∷ keys)) ≡ true
has_key-kept k l keys h = rw h (rw (str_eq_refl l) refl)

module _ (b c : Alert) (b_fires : is_resolved b ≡ false) (c_fires : is_resolved c ≡ false)
    (apart : str_eq (redis_key b) (redis_key c) ≡ false)
    (apart' : str_eq (redis_key c) (redis_key b) ≡ false) where
  -- The keys that the batch leaves where the publishing of its first alert fails.
  abbrev left_keys : Intake → List String
  left_keys s = without_key (redis_key b) (redis_key c ∷ redis_key b ∷ s.keys)

  first_batch :
      (s : Intake)
      → has_key (redis_key b) s.keys ≡ false
      → has_key (redis_key c) s.keys ≡ false
      → process_alerts (b ∷ c ∷ []) (record { state = s; faults = false ∷ false ∷ true ∷ [] }) ≡ (
        err failed,
        record {
          state = record s {
            keys = left_keys s;
            audit = s.audit ++ ((b, false) ∷ (c, false) ∷ []);
          };
          faults = [];
        },
      )
  unfolding process_alerts process_some classify apply set_keys_of del_keys_of spread publish_all
      publish_alert save_raw_alerts clear del call pure raise try ◌>>=◌
  first_batch s b_new c_new =
      rw b_fires (rw c_fires (rw b_new (rw c_new (rw apart' (rw b_fires (rw c_fires refl))))))

  -- The same batch where the cache holds the second alert's key, and nothing fails.
  retry_batch :
      (t : Intake)
      → has_key (redis_key b) t.keys ≡ false
      → has_key (redis_key c) t.keys ≡ true
      → process_alerts (b ∷ c ∷ []) (record { state = t; faults = [] }) ≡ (
        ok tt,
        record {
          state = record {
            keys = redis_key b ∷ t.keys;
            audit = t.audit ++ ((b, false) ∷ (c, true) ∷ []);
            outbox = t.outbox ++ (b ∷ []);
          };
          faults = [];
        },
      )
  unfolding process_alerts process_some classify apply set_keys_of del_keys_of spread publish_all
      publish_alert save_raw_alerts clear del call pure raise try ◌>>=◌
  retry_batch t b_new c_known =
      rw b_fires (rw c_fires (rw b_new (rw apart' (rw c_known (rw b_fires (rw c_fires refl))))))

-- Two alerts that fire, with different keys that the cache does not hold, come in one batch, and
-- publishing the first fails: the sender is told so and nothing is published. When the sender repeats the
-- batch and nothing fails, it is told of success, and the first alert alone is published.
pub process_alerts_loses :
    (b c : Alert) (s : Intake)
    → is_resolved b ≡ false
    → is_resolved c ≡ false
    → str_eq (redis_key b) (redis_key c) ≡ false
    → str_eq (redis_key c) (redis_key b) ≡ false
    → has_key (redis_key b) s.keys ≡ false
    → has_key (redis_key c) s.keys ≡ false
    → let first =
        process_alerts (b ∷ c ∷ []) (record { state = s; faults = false ∷ false ∷ true ∷ [] }) in
      let second = process_alerts (b ∷ c ∷ []) (record { state = first.1.state; faults = [] }) in
      (first.0 ≡ err failed)
      × (first.1.state.outbox ≡ s.outbox)
      × (second.0 ≡ ok tt)
      × (second.1.state.outbox ≡ s.outbox ++ (b ∷ []))
process_alerts_loses b c s b_fires c_fires apart apart' b_new c_new =
    rw (first_batch b c b_fires c_fires apart apart' s b_new c_new) (
      rw
        (retry_batch b c b_fires c_fires apart apart'
          (record s {
            keys = left_keys b c b_fires c_fires apart apart' s;
            audit = s.audit ++ ((b, false) ∷ (c, false) ∷ []);
          })
          (has_key-without_key (redis_key b) (redis_key c ∷ redis_key b ∷ s.keys))
          (has_key-kept (redis_key b) (redis_key c) (redis_key b ∷ s.keys) apart))
        (refl, refl, refl, refl))
