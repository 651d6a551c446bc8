-- ===== src/Scheduling/Handlers/Configs/Saved.antt =====
-- What a saved notification config reads as (services/scheduling/internal/handler/handler.go).
use sreon_call.Prelude.{
  ◌≡◌, ◌≢◌, subst, refl, inl, inr, String, str_eq, eq_iff, List, [], ◌∷◌, ◌++◌, Bool, true, false,
  Option, none, some, Bool-cases, Result, ok, find, any, update_where,
}
use sreon_call.Effects.{calm, Err, call, pure, try, ◌>>=◌}
use sreon_call.Effects.Http.{Reply, json}
use sreon_call.Scheduling.Roster.{NotificationConfig, Roster}
use sreon_call.Scheduling.Roster.Tenants.{
  config_of, get_notification_config, upsert_notification_config,
}
use sreon_call.Scheduling.Roster.Schedules.{found}
use sreon_call.Scheduling.Handlers.{Payload, config, Library}
use sreon_call.Scheduling.Handlers.Shifts.{or_kept}
use sreon_call.Scheduling.Handlers.Configs.{
  ConfigPatch, or_default, if_public, shown, merged, default_config, new_webhook, write_config,
  get_tenant_notification_config, put_tenant_notification_config,
}

abbrev pub current : String → Option NotificationConfig → NotificationConfig
current slug none = default_config slug
current slug (some c) = c

find-updated :
    (c : NotificationConfig) (rows : List NotificationConfig)
    → config_of c.tenant_id c ≡ true
    → any (config_of c.tenant_id) rows ≡ true
    → find (config_of c.tenant_id) (update_where (config_of c.tenant_id) (λ _. c) rows) ≡ some c
find-updated c [] k h = cc
find-updated c (row ∷ rows) k h = elim (Bool-cases (config_of c.tenant_id row)) [
  | inl hit ↦ rw hit (rw k refl)
  | inr miss ↦ rw miss (rw miss (find-updated c rows k (rw miss at h)))
]

find-last :
    (p : NotificationConfig → Bool) (c : NotificationConfig) (rows : List NotificationConfig)
    → p c ≡ true
    → any p rows ≡ false
    → find p (rows ++ (c ∷ [])) ≡ some c
find-last p c [] k h = rw k refl
find-last p c (row ∷ rows) k h = elim (Bool-cases (p row)) [
  | inl hit ↦ let q = rw hit at h in cc
  | inr miss ↦ rw miss (find-last p c rows k (rw miss at h))
]

found_after :
    (c : NotificationConfig) (s : Roster)
    → find (config_of c.tenant_id) (upsert_notification_config c (calm s)).1.state.configs ≡ some c
unfolding upsert_notification_config call
found_after c s =
    let k : str_eq c.tenant_id c.tenant_id ≡ true = (eq_iff c.tenant_id c.tenant_id).1 refl in
    elim (Bool-cases (any (config_of c.tenant_id) s.configs)) [
      | inl hit ↦ rw hit (find-updated c s.configs k hit)
      | inr miss ↦ rw miss (find-last (config_of c.tenant_id) c s.configs k miss)
    ]

saved :
    (lib : Library) (by_service : Bool) (slug : String) (p : ConfigPatch) (s : Roster)
    (old : Option NotificationConfig) (webhook : Option String)
    → ((raw : String) → webhook ≡ some raw → lib.is_public_url raw ≡ true)
    → (or_default slug
        (found old)
        (λ c. if_public lib webhook (write_config lib by_service (merged p slug c)))
        (calm s)).1.state
      ≡ (upsert_notification_config (merged p slug (current slug old)) (calm s)).1.state
unfolding write_config upsert_notification_config call pure try ◌>>=◌
saved lib by_service slug p s none none h = refl
saved lib by_service slug p s (some c) none h = refl
saved lib by_service slug p s none (some raw) h = rw (h raw refl) refl
saved lib by_service slug p s (some c) (some raw) h = rw (h raw refl) refl

-- A field is as the patch says, or as it was where the patch leaves it out.
abbrev pub Follows : {A : Type 0} → Option A → A → A → Type 0
Follows none old new = new ≡ old
Follows (some v) old new = new ≡ v

-- An empty webhook leaves the old one too.
abbrev pub FollowsWebhook : Option String → String → String → Type 0
FollowsWebhook none old new = new ≡ old
FollowsWebhook (some raw) old new = (raw ≡ "" → new ≡ old) × (raw ≢ "" → new ≡ raw)

abbrev pub IsPatched : ConfigPatch → String → NotificationConfig → NotificationConfig → Type 0
IsPatched p slug old c =
    (c.tenant_id ≡ slug)
    × Follows p.mattermost_enabled old.mattermost_enabled c.mattermost_enabled
    × FollowsWebhook p.mattermost_webhook_url old.mattermost_webhook_url c.mattermost_webhook_url
    × Follows p.mattermost_channel old.mattermost_channel c.mattermost_channel
    × Follows p.smtp_from old.smtp_from c.smtp_from
    × Follows p.email_enabled old.email_enabled c.email_enabled
    × Follows p.email_reply_to old.email_reply_to c.email_reply_to
    × Follows p.email_subject_prefix old.email_subject_prefix c.email_subject_prefix

or_kept-Follows : {A : Type 0} (given : Option A) (old : A) → Follows given old (or_kept given old)
or_kept-Follows none old = refl
or_kept-Follows (some v) old = refl

or_kept-FollowsWebhook :
    (given : Option String) (old : String)
    → FollowsWebhook given old (or_kept (new_webhook given) old)
or_kept-FollowsWebhook none old = refl
or_kept-FollowsWebhook (some raw) old = elim (Bool-cases (str_eq raw "")) [
  | inl empty ↦
      let e : raw ≡ "" = (eq_iff raw "").0 empty in rw empty ((λ _. refl), (λ k. absurd (k e)))
  | inr full ↦
      rw full ((λ e. let k : str_eq raw "" ≡ true = (eq_iff raw "").1 e in cc), (λ _. refl))
]

merged-IsPatched :
    (p : ConfigPatch) (slug : String) (old : NotificationConfig)
    → IsPatched p slug old (merged p slug old)
unfolding merged
merged-IsPatched p slug old = (
  refl,
  or_kept-Follows p.mattermost_enabled old.mattermost_enabled,
  or_kept-FollowsWebhook p.mattermost_webhook_url old.mattermost_webhook_url,
  or_kept-Follows p.mattermost_channel old.mattermost_channel,
  or_kept-Follows p.smtp_from old.smtp_from,
  or_kept-Follows p.email_enabled old.email_enabled,
  or_kept-Follows p.email_reply_to old.email_reply_to,
  or_kept-Follows p.email_subject_prefix old.email_subject_prefix,
)

-- A webhook that the patch gives is public.
abbrev pub NamesPublic : Library → Option String → Type 0
NamesPublic lib none = Unit
NamesPublic lib (some raw) = lib.is_public_url raw ≡ true

names_public :
    (lib : Library) (given : Option String)
    → NamesPublic lib given
    → (raw : String) → new_webhook given ≡ some raw
    → lib.is_public_url raw ≡ true
names_public lib none h raw e = cc
names_public lib (some given) h raw e = elim (Bool-cases (str_eq given "")) [
  | inl empty ↦ let k = rw empty at e in cc
  | inr full ↦
      let k : some given ≡ some raw = rw full at e in
      let same : given ≡ raw = cc k in subst (λ u. lib.is_public_url u ≡ true) same h
]

-- A patch of a tenant's config that names no webhook, or one that is public, saved where no call fails: the
-- config that is read afterwards has each field as the patch says, or else as in the old config, or in
-- the default where there was none, with the old webhook where the patch's is empty; and a caller without
-- the service's key is shown its webhook masked.
pub put-get :
    (lib : Library) (by_service is_service : Bool) (slug : String) (p : ConfigPatch) (s : Roster)
    → NamesPublic lib p.mattermost_webhook_url
    → let t = (put_tenant_notification_config lib by_service slug (some p) (calm s)).1.state in
      (c : NotificationConfig) × IsPatched p slug (current slug (find (config_of slug) s.configs)) c
      × ◌≡◌ {A = Result Err (Reply Payload)}
          (get_tenant_notification_config is_service slug (calm t)).0
          (ok (record { code = 200; body = json (config (shown is_service c)) }))
unfolding put_tenant_notification_config get_tenant_notification_config get_notification_config
    merged call pure try ◌>>=◌
put-get lib by_service is_service slug p s h =
    let old = find (config_of slug) s.configs in
    (
      merged p slug (current slug old),
      merged-IsPatched p slug (current slug old),
      rw
          (saved lib by_service slug p s old (new_webhook p.mattermost_webhook_url)
            (names_public lib p.mattermost_webhook_url h))
          (rw (found_after (merged p slug (current slug old)) s) refl),
    )
