-- ===== src/Notification/RateLimit.antt =====
-- services/notification/internal/ratelimit/ratelimit.go: the Lua script, which Redis runs as one step.
-- The key goes by Redis's own clock, which the model takes to agree with the service's.
pub mod Bound
use Prim.Native.String.{◌++◌ as ◌<>◌}
use sreon_call.Prelude.{
  ℕ, zero, suc, ◌+◌, ◌-◌, ◌*◌, ◌/◌, String, str_eq, List, [], ◌∷◌, ◌++◌, Bool, true, false, not,
  Option, none, some, ltb, leb, if◌then◌else◌, Result, ok, err, any, find, filter,
}
use sreon_call.Effects.{Err, Io, call}
use sreon_call.Notification.Types.{Bucket, Desk, Settings}

-- `tokens` and `last_refill` of a key.
pub record Fill : Type 0 where
  pub tokens : ℕ
  pub last_refill : ℕ

-- The tokens that the script goes on with: a full bucket where there is none, or where a window has
-- passed since the last one.
unfoldable pub refill : ℕ → ℕ → ℕ → Option Fill → Fill
refill max window now none = record { tokens = max; last_refill = now }
refill max window now (some f) =
    if leb (f.last_refill + window) now then record { tokens = max; last_refill = now } else f

-- The answer of the script and the fill that it stores; without a token it stores nothing.
unfoldable pub take_token : ℕ → ℕ → ℕ → Option Fill → Bool × Option Fill
take_token max window now stored =
    let f = refill max window now stored in
    if ltb 0 f.tokens then (true, some (record f { tokens = f.tokens - 1 })) else (false, stored)

unfoldable pub limit_key : String → String → String → String
limit_key tenant_id user_id channel =
    "oncall:ratelimit:notif:" <> (tenant_id <> (":" <> (user_id <> (":" <> channel))))

-- ── The hashes in Redis

abbrev pub seconds_of : ℕ → ℕ
seconds_of clock = clock / 1_000_000_000

abbrev pub is_live : String → ℕ → Bucket → Bool
is_live key now b = if str_eq b.key key then ltb now b.expires_at else false

abbrev pub fill_of : Bucket → Fill
fill_of b = record { tokens = b.tokens; last_refill = b.last_refill }

abbrev pub stored_fill : Option Bucket → Option Fill
stored_fill none = none
stored_fill (some b) = some (fill_of b)

-- HMSET and EXPIRE.
abbrev pub store_fill : String → ℕ → Option Fill → List Bucket → List Bucket
store_fill key expires none buckets = buckets
store_fill key expires (some f) buckets =
    record { key = key; tokens = f.tokens; last_refill = f.last_refill; expires_at = expires }
    ∷ filter (λ b. not (str_eq b.key key)) buckets

abbrev pub write_if : Bool → String → ℕ → Option Fill → List Bucket → List Bucket
write_if true key expires f buckets = store_fill key expires f buckets
write_if false key expires f buckets = buckets

abbrev pub run_script : Settings → String → Desk → Result Err Bool × Desk
run_script conf key s =
    let now = seconds_of s.clock in
    let (allowed, f) =
      take_token conf.max conf.window now (stored_fill (find (is_live key now) s.buckets)) in
    (ok allowed, record s { buckets = write_if allowed key (now + conf.window * 2) f s.buckets })

unfoldable pub allow : Settings → String → String → String → Io Desk Bool
allow conf tenant_id user_id channel = call (run_script conf (limit_key tenant_id user_id channel))
