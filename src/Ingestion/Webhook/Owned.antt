-- ===== src/Ingestion/Webhook/Owned.antt =====
-- Whose alerts a webhook publishes (services/ingestion/internal/handler/handler.go).
use sreon_call.Prelude.{
  ℕ, ◌≡◌, refl, sym, ap, subst, ◌∙◌, ◌⊎◌, inl, inr, String, str_eq, List, [], ◌∷◌, ◌++◌, map, Bool,
  true, false, All, All-append, Result, ok, err, ok_injective,
}
use mathlib.Core.List.{append-nil, append_assoc}
use sreon_call.Effects.{Err, failed, Env, Io, call}
use sreon_call.Effects.Evolves.{
  Evolves, Preorder, Evolves-call, Evolves-bind, Evolves-try, Evolves-pure, Evolves-raise,
  Evolves-if, Evolves-if_known, Evolves-read, evolves_rules,
}
use sreon_call.Effects.Http.Rules.{Evolves-reply}
use sreon_call.Incident.Types.{Alert}
use sreon_call.Ingestion.Dedup.{Intake, classify, clear, apply, del}
use sreon_call.Ingestion.Process.{
  zip, save_raw_alerts, publish_alert, or_roll_back, publish_all, or_all_new, process_some,
  process_alerts,
}
use sreon_call.Ingestion.Normalize.{
  Library, AmAlert, AmPayload, GrafanaPayload, normalize_alertmanager, normalize_grafana, am_alert,
  grafana_alert,
}
use sreon_call.Ingestion.Webhook.{
  Answer, Body, unreadable, malformed, decoded, answer_processed, process_and_answer, get_tenant_id,
  with_tenant, tenant, or_empty, handle_alertmanager, handle_grafana, post_alertmanager,
  post_grafana,
}

abbrev pub IsOf : String → Alert → Type 0
IsOf tenant_id a = a.tenant_id ≡ tenant_id

-- What was published before, and then alerts that satisfy P.
abbrev pub Publishes : (Alert → Type 0) → Intake → Intake → Type 0
Publishes P s t = (new : List Alert) × (t.outbox ≡ s.outbox ++ new) × All P new

Publishes-Preorder : (P : Alert → Type 0) → Preorder (Publishes P)
Publishes-Preorder P = record {
  same = λ s. ([], sym (append-nil s.outbox), tt);
  chain = λ s t u (a, p, ha) (b, q, hb).
      (a ++ b, q ∙ ap (λ l. l ++ b) p ∙ append_assoc s.outbox a b, All-append P a b ha hb);
}

module _ (P : Alert → Type 0) where
  quiet :
      {A : Type 0} (op : Intake → Result Err A × Intake)
      → ((s : Intake) → (op s).1.outbox ≡ s.outbox)
      → Evolves (Publishes P) (call op)
  quiet op h =
      Evolves-call (Publishes-Preorder P) op (λ s. ([], h s ∙ sym (append-nil s.outbox), tt))

  or_roll_back-Publishes :
      (alert : Alert) (r : Result Err (Unit {0})) (next : Io Intake (Unit {0}))
      → Evolves (Publishes P) next
      → Evolves (Publishes P) (or_roll_back alert r next)
  unfolding clear del
  or_roll_back-Publishes alert (ok u) next h = h
  or_roll_back-Publishes alert (err x) next h =
      Evolves-bind (Publishes-Preorder P) _ _
        (Evolves-try (Publishes-Preorder P) _ (quiet _ (λ s. refl)))
        λ r. Evolves-raise (Publishes-Preorder P) x

  publish_all-Publishes :
      (items : List (Alert × Bool))
      → All (λ i. P i.0) items
      → Evolves (Publishes P) (publish_all items)
  unfolding publish_all publish_alert
  publish_all-Publishes [] h = Evolves-pure (Publishes-Preorder P) tt
  publish_all-Publishes ((alert, true) ∷ rest) h = publish_all-Publishes rest h.1
  publish_all-Publishes ((alert, false) ∷ rest) h =
      Evolves-bind (Publishes-Preorder P) _ _
        (Evolves-try (Publishes-Preorder P) _
          (Evolves-call (Publishes-Preorder P) _ (λ s. (alert ∷ [], refl, (h.0, tt)))))
        λ r. or_roll_back-Publishes alert r _ (publish_all-Publishes rest h.1)

  apply-Publishes :
      (set_keys del_keys : List String) → Evolves (Publishes P) (apply set_keys del_keys)
  unfolding apply
  apply-Publishes [] [] = Evolves-pure (Publishes-Preorder P) _
  apply-Publishes (k ∷ ks) del_keys = quiet _ (λ s. refl)
  apply-Publishes [] (d ∷ ds) = quiet _ (λ s. refl)

  classify-Publishes : (alerts : List Alert) → Evolves (Publishes P) (classify alerts)
  unfolding classify
  classify-Publishes [] = Evolves-pure (Publishes-Preorder P) _
  classify-Publishes (a ∷ more) = search (evolves_rules, Publishes-Preorder, apply-Publishes)

  save-Publishes : (items : List (Alert × Bool)) → Evolves (Publishes P) (save_raw_alerts items)
  unfolding save_raw_alerts
  save-Publishes [] = Evolves-pure (Publishes-Preorder P) tt
  save-Publishes (i ∷ is) = quiet _ (λ s. refl)

  All-zip :
      (alerts : List Alert) (dup : List Bool) → All P alerts → All (λ i. P i.0) (zip alerts dup)
  All-zip [] dup h = tt
  All-zip (a ∷ more) [] h = tt
  All-zip (a ∷ more) (d ∷ ds) h = (h.0, All-zip more ds h.1)

  process_alerts-Publishes :
      (alerts : List Alert) → All P alerts → Evolves (Publishes P) (process_alerts alerts)
  unfolding process_alerts process_some
  process_alerts-Publishes [] h = Evolves-pure (Publishes-Preorder P) tt
  process_alerts-Publishes (a ∷ more) h =
      Evolves-bind (Publishes-Preorder P) _ _
        (Evolves-try (Publishes-Preorder P) _ (classify-Publishes (a ∷ more)))
        λ answer.
          let items = zip (a ∷ more) (or_all_new (a ∷ more) answer) in
          Evolves-bind (Publishes-Preorder P) _ _
            (Evolves-try (Publishes-Preorder P) _ (save-Publishes items))
            λ r. publish_all-Publishes items (All-zip (a ∷ more) _ h)

  answered-Publishes : (r : Result Err (Unit {0})) → Evolves (Publishes P) (answer_processed r)
  answered-Publishes (ok u) = Evolves-reply (Publishes-Preorder P) _ _
  answered-Publishes (err x) = Evolves-reply (Publishes-Preorder P) _ _

  processed-Publishes :
      (alerts : List Alert) → All P alerts → Evolves (Publishes P) (process_and_answer alerts)
  unfolding process_and_answer
  processed-Publishes alerts h =
      Evolves-bind (Publishes-Preorder P) _ _
        (Evolves-try (Publishes-Preorder P) _ (process_alerts-Publishes alerts h))
        answered-Publishes

-- ── The middleware

-- The alert is of the tenant that the token resolves to, and there is one.
abbrev pub IsAuthorized : Library → String → Alert → Type 0
IsAuthorized lib token a =
    let tenant_id = or_empty (lib.tenant_of (lib.sha256_hex token)) in
    (a.tenant_id ≡ tenant_id) × (str_eq tenant_id "" ≡ false)

module _ (lib : Library) (token : String) where
  abbrev Allowed : Answer → Type 0
  Allowed = Evolves (Publishes (IsAuthorized lib token))

  with_tenant-Allowed :
      (next : String → Answer)
      → ((tenant_id : String)
          → tenant_id ≡ or_empty (lib.tenant_of (lib.sha256_hex token))
          → str_eq tenant_id "" ≡ false
          → Allowed (next tenant_id))
      → (e : Env Intake) (r : Result Err String)
      → (r ≡ err failed) ⊎ (r ≡ ok (or_empty (lib.tenant_of (lib.sha256_hex token))))
      → Publishes (IsAuthorized lib token) e.state (with_tenant lib r next e).1.state
  with_tenant-Allowed next h e (err x) k =
      (Evolves-reply (Publishes-Preorder (IsAuthorized lib token)) _ _).at e
  with_tenant-Allowed next h e (ok t) (inl k) = cc
  with_tenant-Allowed next h e (ok t) (inr k) =
      (Evolves-if_known (Publishes-Preorder (IsAuthorized lib token)) (str_eq t "") _ _
          (λ empty. Evolves-reply (Publishes-Preorder (IsAuthorized lib token)) _ _)
          (h t (ok_injective k))).at
        e

  tenant-Allowed :
      (next : String → Answer)
      → ((tenant_id : String)
          → tenant_id ≡ or_empty (lib.tenant_of (lib.sha256_hex token))
          → str_eq tenant_id "" ≡ false
          → Allowed (next tenant_id))
      → Allowed (tenant lib token next)
  unfolding tenant get_tenant_id
  tenant-Allowed next h =
      Evolves-if (Publishes-Preorder (IsAuthorized lib token)) _ _ _
        (Evolves-reply (Publishes-Preorder (IsAuthorized lib token)) _ _)
        (Evolves-read (Publishes-Preorder (IsAuthorized lib token)) _ _
          (with_tenant-Allowed next h))

  alertmanager-IsAuthorized :
      (tenant_id : String) (now : ℕ) (alerts : List AmAlert)
      → tenant_id ≡ or_empty (lib.tenant_of (lib.sha256_hex token))
      → str_eq tenant_id "" ≡ false
      → All (IsAuthorized lib token) (map (am_alert lib tenant_id now) alerts)
  unfolding am_alert
  alertmanager-IsAuthorized tenant_id now [] same known = tt
  alertmanager-IsAuthorized tenant_id now (a ∷ more) same known = (
    (same, subst (λ t. str_eq t "" ≡ false) same known),
    alertmanager-IsAuthorized tenant_id now more same known,
  )

  handle_alertmanager-Allowed :
      (now : ℕ) (body : Body AmPayload) (tenant_id : String)
      → tenant_id ≡ or_empty (lib.tenant_of (lib.sha256_hex token))
      → str_eq tenant_id "" ≡ false
      → Allowed (handle_alertmanager lib now body tenant_id)
  unfolding handle_alertmanager normalize_alertmanager
  handle_alertmanager-Allowed now unreadable tenant_id same known =
      Evolves-reply (Publishes-Preorder (IsAuthorized lib token)) _ _
  handle_alertmanager-Allowed now malformed tenant_id same known =
      Evolves-reply (Publishes-Preorder (IsAuthorized lib token)) _ _
  handle_alertmanager-Allowed now (decoded p) tenant_id same known =
      processed-Publishes (IsAuthorized lib token) _
        (alertmanager-IsAuthorized tenant_id now p.alerts same known)

  handle_grafana-Allowed :
      (now : ℕ) (body : Body GrafanaPayload) (tenant_id : String)
      → tenant_id ≡ or_empty (lib.tenant_of (lib.sha256_hex token))
      → str_eq tenant_id "" ≡ false
      → Allowed (handle_grafana lib now body tenant_id)
  unfolding handle_grafana normalize_grafana grafana_alert
  handle_grafana-Allowed now unreadable tenant_id same known =
      Evolves-reply (Publishes-Preorder (IsAuthorized lib token)) _ _
  handle_grafana-Allowed now malformed tenant_id same known =
      Evolves-reply (Publishes-Preorder (IsAuthorized lib token)) _ _
  handle_grafana-Allowed now (decoded p) tenant_id same known =
      processed-Publishes (IsAuthorized lib token) _
        ((same, subst (λ t. str_eq t "" ≡ false) same known), tt)

-- Whatever the body is and whatever fails, what each of the two webhooks publishes is appended to what was
-- published before, and is of the tenant that the token resolves to; where the token resolves to none,
-- nothing is published.
pub webhooks-IsAuthorized :
    (lib : Library) (token : String) (now : ℕ) (am : Body AmPayload) (grafana : Body GrafanaPayload)
    (e : Env Intake)
    → Publishes (IsAuthorized lib token) e.state (post_alertmanager lib token now am e).1.state
      × Publishes (IsAuthorized lib token) e.state (post_grafana lib token now grafana e).1.state
unfolding post_alertmanager post_grafana
webhooks-IsAuthorized lib token now am grafana e = (
  (tenant-Allowed lib token _ (handle_alertmanager-Allowed lib token now am)).at e,
  (tenant-Allowed lib token _ (handle_grafana-Allowed lib token now grafana)).at e,
)
