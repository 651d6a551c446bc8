-- ===== src/Notification/TenantCache.antt =====
-- services/notification/internal/tenantcache/cache.go over
-- services/notification/internal/schedclient/client.go. Requests that meet in a miss share one fetch, so
-- the model takes them one after the other.
pub mod Fresh
use sreon_call.Prelude.{
  ℕ, ◌+◌, String, str_eq, List, [], ◌∷◌, Bool, true, false, not, Option, none, some, ltb,
  if◌then◌else◌, Result, ok, err, find, filter,
}
use sreon_call.Effects.{Err, Io, call, pure, gets, ◌>>=◌}
use sreon_call.Notification.Types.{TenantNotificationConfig, CacheEntry, Desk}

-- A tenant without a config is no error.
unfoldable pub get_tenant_notification_config : String → Io Desk (Option TenantNotificationConfig)
get_tenant_notification_config slug = call λ s. (ok (s.configs s.clock slug), s)

abbrev pub entry_of : String → CacheEntry → Bool
entry_of slug e = str_eq e.slug slug

abbrev pub put_entry : CacheEntry → List CacheEntry → List CacheEntry
put_entry e entries = e ∷ filter (λ x. not (entry_of e.slug x)) entries

-- `c.data[slug] = …`, with no call.
unfoldable pub remember :
    ℕ → String → Option TenantNotificationConfig → Io Desk (Option TenantNotificationConfig)
remember ttl slug cfg e = (
  ok cfg,
  record e {
    state = record (e.state) {
      cache =
          put_entry (record { slug = slug; cfg = cfg; expires_at = e.state.clock + ttl })
            e.state.cache;
    };
  },
)

unfoldable pub fetch : ℕ → String → Io Desk (Option TenantNotificationConfig)
fetch ttl slug = do cfg ← get_tenant_notification_config slug; remember ttl slug cfg

unfoldable pub serve :
    ℕ → String → ℕ → Option CacheEntry → Io Desk (Option TenantNotificationConfig)
serve ttl slug now none = fetch ttl slug
serve ttl slug now (some e) = if ltb now e.expires_at then pure e.cfg else fetch ttl slug

unfoldable pub get : ℕ → String → Io Desk (Option TenantNotificationConfig)
get ttl slug = do
  now ← gets (λ s. s.clock)
  e ← gets (λ s. find (entry_of slug) s.cache)
  serve ttl slug now e

-- One round of the sweeper.
unfoldable pub evict_expired : Desk → Desk
evict_expired s = record s { cache = filter (λ e. not (ltb e.expires_at s.clock)) s.cache }
