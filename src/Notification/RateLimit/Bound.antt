-- ===== src/Notification/RateLimit/Bound.antt =====
-- How many messages the limiter of services/notification/internal/ratelimit/ratelimit.go lets pass.
use sreon_call.Prelude.{
  ℕ, ◌+◌, ◌-◌, ◌≤◌, ◌<◌, List, [], ◌∷◌, Option, none, some, arith, All, if◌then◌else◌,
}
use sreon_call.Notification.RateLimit.{Fill, refill, take_token}

-- The requests for one key at these seconds, one after the other: how many are let pass.
unfoldable pub passed : ℕ → ℕ → Option Fill → List ℕ → ℕ
passed max window stored [] = 0
passed max window stored (now ∷ later) =
    let (allowed, after) = take_token max window now stored in
    (if allowed then 1 else 0) + passed max window after later

abbrev pub tokens_left : Option Fill → ℕ
tokens_left none = 0
tokens_left (some f) = f.tokens

module _ (max window : ℕ) where
  -- Before the window that began with the last fill is over, what is left is the limit.
  passed_before :
      (f : Fill) (times : List ℕ)
      → All (λ now. now < f.last_refill + window) times
      → passed max window (some f) times ≤ f.tokens
  unfolding passed take_token refill
  passed_before f [] h = omega arith
  passed_before f (now ∷ later) h = ground (
    arith,
    passed_before (record f { tokens = f.tokens - 1 }) later h.1,
    passed_before f later h.1,
  )

  within :
      (start now : ℕ) (times : List ℕ)
      → start ≤ now
      → All (λ t. (start ≤ t) × (t < start + window)) times
      → All (λ t. t < now + window) times
  within start now [] h k = tt
  within start now (t ∷ times) h k = (omega arith, within start now times h k.1)

-- Within one window, however it lies to the fills of the bucket, the limiter lets pass what the bucket
-- held before and one limit more at most, whatever the requests are and however many.
pub passed_in_window :
    (max window start : ℕ) (stored : Option Fill) (times : List ℕ)
    → All (λ now. (start ≤ now) × (now < start + window)) times
    → passed max window stored times ≤ tokens_left stored + max
unfolding passed take_token refill
passed_in_window max window start stored [] h = omega arith
passed_in_window max window start none (now ∷ later) h = ground (
  arith,
  passed_in_window max window start none later h.1,
  passed_before max window (record { tokens = max - 1; last_refill = now }) later
      (within max window start now later (h.0).0 h.1),
)
passed_in_window max window start (some f) (now ∷ later) h = ground (
  arith,
  passed_in_window max window start (some f) later h.1,
  passed_in_window max window start (some (record f { tokens = f.tokens - 1 })) later h.1,
  passed_before max window (record { tokens = max - 1; last_refill = now }) later
      (within max window start now later (h.0).0 h.1),
)
