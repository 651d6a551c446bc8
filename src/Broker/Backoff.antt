-- ===== src/Broker/Backoff.antt =====
-- The waits between connections in pkg/amqp/consume.go.
use sreon_call.Prelude.{ℕ, zero, suc, ◌*◌, ◌^◌, ◌≡◌, refl, false, arith, ltb, if◌then◌else◌}
use sreon_call.Broker.Consume.{second, max_backoff, next_backoff, backoff_after}

late : (n : ℕ) → backoff_after (suc (suc (suc (suc (suc n))))) ≡ max_backoff
unfolding backoff_after next_backoff
late zero = refl
late (suc n) = rw (late n) refl

late_test : (n : ℕ) → ltb (suc (suc (suc (suc (suc n))))) 5 ≡ false
late_test n = ground arith

-- The wait doubles from a second on and stays at thirty seconds from the sixth on.
pub backoff_after_lem :
    (n : ℕ) → backoff_after n ≡ (if ltb n 5 then 2 ^ n * second else max_backoff)
unfolding backoff_after next_backoff
backoff_after_lem zero = refl
backoff_after_lem (suc zero) = refl
backoff_after_lem (suc (suc zero)) = refl
backoff_after_lem (suc (suc (suc zero))) = refl
backoff_after_lem (suc (suc (suc (suc zero)))) = refl
backoff_after_lem (suc (suc (suc (suc (suc n))))) = rw (late_test n) (late n)
