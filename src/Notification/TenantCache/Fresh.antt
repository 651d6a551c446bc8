-- ===== src/Notification/TenantCache/Fresh.antt =====
-- How old the configs are that services/notification/internal/tenantcache/cache.go gives out.
use sreon_call.Prelude.{
  ℕ, ◌+◌, ◌≤◌, ◌<◌, ◌≡◌, refl, sym, subst, inl, inr, String, eq_iff, List, [], ◌∷◌, Bool, true,
  false, not, Option, none, some, arith, ltb, All, All-filter, find-All, Bool-cases, find_passes,
  ltb→lt, find, Result, ok,
}
use sreon_call.Effects.{Err, Env, call, pure, gets, ◌>>=◌}
use sreon_call.Notification.Types.{TenantNotificationConfig, CacheEntry, Desk}
use sreon_call.Notification.TenantCache.{
  entry_of, put_entry, get_tenant_notification_config, remember, fetch, serve, get, evict_expired,
}

-- The entry holds what the scheduling service answered when it was fetched, which is not to come.
abbrev pub IsTrue : ℕ → Desk → CacheEntry → Type 0
IsTrue ttl s e =
    (at : ℕ) × (at ≤ s.clock) × (e.expires_at ≡ at + ttl) × (e.cfg ≡ s.configs at e.slug)

-- Every entry of the cache does.
abbrev pub IsTrueCache : ℕ → Desk → Type 0
IsTrueCache ttl s = All (IsTrue ttl s) s.cache

-- What `Get` gives out, and the cache that it leaves.
abbrev Served : ℕ → String → Desk → Result Err (Option TenantNotificationConfig) × Env Desk → Type 0
Served ttl slug s out =
    IsTrueCache ttl out.1.state
    × (out.1.state.clock ≡ s.clock)
    × ((cfg : Option TenantNotificationConfig)
        → out.0 ≡ ok cfg
        → (at : ℕ) × (at ≤ s.clock) × (s.clock ≤ at + ttl) × (cfg ≡ s.configs at slug))

fetched-IsTrueCache :
    (ttl : ℕ) (slug : String) (s : Desk)
    → IsTrueCache ttl s
    → All (IsTrue ttl s) (
        put_entry
          (record { slug = slug; cfg = s.configs s.clock slug; expires_at = s.clock + ttl })
          s.cache)
fetched-IsTrueCache ttl slug s h = (
  (s.clock, omega arith, refl, refl),
  All-filter (IsTrue ttl s) (λ x. not (entry_of slug x)) s.cache h,
)

answered :
    (ttl : ℕ) (slug : String) (s : Desk) (cfg : Option TenantNotificationConfig)
    → ◌≡◌ {A = Result Err (Option TenantNotificationConfig)} (ok (s.configs s.clock slug)) (ok cfg)
    → (at : ℕ) × (at ≤ s.clock) × (s.clock ≤ at + ttl) × (cfg ≡ s.configs at slug)
answered ttl slug s cfg h = (s.clock, omega arith, omega arith, cc)

fetch-Served :
    (ttl : ℕ) (slug : String) (s : Desk) (faults : List Bool)
    → IsTrueCache ttl s
    → Served ttl slug s (fetch ttl slug (record { state = s; faults = faults }))
unfolding fetch get_tenant_notification_config remember call ◌>>=◌
fetch-Served ttl slug s [] h = (fetched-IsTrueCache ttl slug s h, refl, answered ttl slug s)
fetch-Served ttl slug s (true ∷ faults) h = (h, refl, λ cfg q. cc)
fetch-Served ttl slug s (false ∷ faults) h =
    (fetched-IsTrueCache ttl slug s h, refl, answered ttl slug s)

kept_answer :
    (ttl : ℕ) (slug : String) (s : Desk) (e : CacheEntry) (cfg : Option TenantNotificationConfig)
    → IsTrue ttl s e
    → e.slug ≡ slug
    → s.clock < e.expires_at
    → ◌≡◌ {A = Result Err (Option TenantNotificationConfig)} (ok e.cfg) (ok cfg)
    → (at : ℕ) × (at ≤ s.clock) × (s.clock ≤ at + ttl) × (cfg ≡ s.configs at slug)
kept_answer ttl slug s e cfg (at, past, until, same) named live h = (at, past, omega arith, cc)

serve-Served :
    (ttl : ℕ) (slug : String) (s : Desk) (faults : List Bool) (found : Option CacheEntry)
    → found ≡ find (entry_of slug) s.cache
    → IsTrueCache ttl s
    → Served ttl slug s (serve ttl slug s.clock found (record { state = s; faults = faults }))
unfolding serve pure
serve-Served ttl slug s faults none q h = fetch-Served ttl slug s faults h
serve-Served ttl slug s faults (some e) q h = elim (Bool-cases (ltb s.clock e.expires_at)) [
  | inl live ↦ rw live (
    h,
    refl,
    λ cfg k.
        kept_answer ttl slug s e cfg (find-All (IsTrue ttl s) (entry_of slug) s.cache e h (sym q))
          ((eq_iff e.slug slug).0 (find_passes (entry_of slug) s.cache e (sym q)))
          (ltb→lt s.clock e.expires_at live) k,
  )
  | inr gone ↦ rw gone (fetch-Served ttl slug s faults h)
]

get-Served :
    (ttl : ℕ) (slug : String) (s : Desk) (faults : List Bool)
    → IsTrueCache ttl s
    → Served ttl slug s (get ttl slug (record { state = s; faults = faults }))
unfolding get gets ◌>>=◌
get-Served ttl slug s faults h =
    serve-Served ttl slug s faults (find (entry_of slug) s.cache) refl h

-- What becomes of the cache: a request, whatever call fails, a round of the sweeper, time that passes.
pub data Step (ttl : ℕ) : Desk → Desk → Type 0 where
  serves :
      (slug : String) (faults : List Bool) (s : Desk)
      → Step ttl s (get ttl slug (record { state = s; faults = faults })).1.state
  sweeps : (s : Desk) → Step ttl s (evict_expired s)
  passes : (s : Desk) (now : ℕ) → s.clock ≤ now → Step ttl s (record s { clock = now })

pub data Reach (ttl : ℕ) (s : Desk) : Desk → Type 0 where
  here : Reach ttl s s
  next : {t u : Desk} → Reach ttl s t → Step ttl t u → Reach ttl s u

later-IsTrue :
    (ttl : ℕ) (s : Desk) (now : ℕ) (entries : List CacheEntry)
    → s.clock ≤ now
    → All (IsTrue ttl s) entries
    → All (IsTrue ttl (record s { clock = now })) entries
later-IsTrue ttl s now [] le h = tt
later-IsTrue ttl s now (e ∷ entries) le ((at, past, until, same), h) =
    ((at, omega arith, until, same), later-IsTrue ttl s now entries le h)

Step-IsTrueCache : {ttl : ℕ} {s t : Desk} → Step ttl s t → IsTrueCache ttl s → IsTrueCache ttl t
unfolding evict_expired
Step-IsTrueCache {ttl} (serves slug faults s) h = (get-Served ttl slug s faults h).0
Step-IsTrueCache {ttl} (sweeps s) h =
    All-filter (IsTrue ttl s) (λ e. not (ltb e.expires_at s.clock)) s.cache h
Step-IsTrueCache {ttl} (passes s now le) h = later-IsTrue ttl s now s.cache le h

-- From an empty cache on, whatever is asked, fails, is swept away, and however time passes, each entry
-- holds what the scheduling service answered about its tenant at an instant that has been, and
-- expires a time to live after it.
pub Reach-IsTrueCache : {ttl : ℕ} {s t : Desk} → s.cache ≡ [] → Reach ttl s t → IsTrueCache ttl t
Reach-IsTrueCache {ttl} {s} empty here =
    subst (λ entries. All (IsTrue ttl s) entries) (sym empty) tt
Reach-IsTrueCache empty (next r st) = Step-IsTrueCache st (Reach-IsTrueCache empty r)

-- So what `Get` gives out is what the scheduling service answered no longer than the time to live ago.
pub get_age :
    (ttl : ℕ) (slug : String) (s t : Desk) (faults : List Bool)
    (cfg : Option TenantNotificationConfig)
    → s.cache ≡ []
    → Reach ttl s t
    → (get ttl slug (record { state = t; faults = faults })).0 ≡ ok cfg
    → (at : ℕ) × (at ≤ t.clock) × (t.clock ≤ at + ttl) × (cfg ≡ t.configs at slug)
get_age ttl slug s t faults cfg empty r out =
    (get-Served ttl slug t faults (Reach-IsTrueCache empty r)).2 cfg out
