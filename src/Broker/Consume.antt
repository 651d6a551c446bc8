-- ===== src/Broker/Consume.antt =====
-- pkg/amqp/consume.go: what becomes of one delivery, by the outcome of its handler. A handler is an action
-- that may panic: the panic is a result of its own.
use sreon_call.Prelude.{ℕ, zero, suc, ◌*◌, Option, none, some, ltb, if◌then◌else◌, Result, ok, err}
use sreon_call.Effects.{Err, dropped, Env, Io}

-- Ack, Nack without requeue, Nack with requeue.
pub data Settled : Type 0 where
  ack drop requeue : Settled

pub data Outcome : Type 0 where
  returned : Result Err (Unit {0}) → Outcome
  panicked : Outcome

-- A handler with no panic of its own.
abbrev pub calmly : {S : Type 0} → Io S (Unit {0}) → Env S → Outcome × Env S
calmly m e = let (r, e') = m e in (returned r, e')

unfoldable pub settle : Outcome → Settled
settle panicked = drop
settle (returned (ok _)) = ack
settle (returned (err dropped)) = drop
settle (returned (err x)) = requeue

-- The envelope of the delivery if it can be decoded.
unfoldable pub process :
    {S Envelope : Type 0}
    → (Envelope → Env S → Outcome × Env S)
    → Option Envelope
    → Env S
    → Settled × Env S
process handler none e = (drop, e)
process handler (some envelope) e = let (outcome, e') = handler envelope e in (settle outcome, e')

-- ── Options

unfoldable pub concurrency : ℕ → ℕ
concurrency n = if ltb n 1 then 1 else n

unfoldable pub prefetch : ℕ → ℕ → ℕ
prefetch wanted n = if ltb 0 wanted then wanted else concurrency n

abbrev pub second : ℕ
second = 1_000_000_000

unfoldable pub handler_timeout : ℕ → ℕ
handler_timeout wanted = if ltb 0 wanted then wanted else 30 * second

-- ── The loop of `Consume`

abbrev pub max_backoff : ℕ
max_backoff = 30 * second

-- The wait after the next lost connection.
unfoldable pub next_backoff : ℕ → ℕ
next_backoff backoff =
    if ltb backoff max_backoff
    then if ltb max_backoff (backoff * 2) then max_backoff else backoff * 2
    else backoff

-- The waits of the rounds, the first of which is a second.
unfoldable pub backoff_after : ℕ → ℕ
backoff_after zero = second
backoff_after (suc n) = next_backoff (backoff_after n)
