-- ===== src/Notification/Dispatcher/Attempts.antt =====
-- The three attempts of services/notification/internal/dispatcher/email.go and mattermost.go.
use sreon_call.Prelude.{
  ℕ, zero, suc, ◌≡◌, refl, List, [], ◌∷◌, ◌++◌, Bool, true, false, arith, leb, if◌then◌else◌,
  Option, none, some, String, Result, ok, err,
}
use sreon_call.Effects.{Err, failed, cancelled, Env, call, pure, raise, try, gets, ◌>>=◌}
use sreon_call.Notification.Types.{EmailMessage, Outgoing, post, Desk, Url, Settings}
use sreon_call.Notification.Dispatcher.{
  attempt, wait, attempts, raw_mail, if_request, send_email, send_mattermost,
}

-- The outcomes are by turns those of an attempt and of the wait after it. How many rounds there are of
-- an attempt that fails and a wait that is not cancelled, before any other.
abbrev pub rounds : List Bool → ℕ
rounds [] = 0
rounds (false ∷ faults) = 0
rounds (true ∷ []) = 1
rounds (true ∷ true ∷ faults) = 0
rounds (true ∷ false ∷ faults) = suc (rounds faults)

-- Whether the attempt of this round, counted from 0, fails.
abbrev pub fails_in : ℕ → List Bool → Bool
fails_in zero [] = false
fails_in zero (fault ∷ faults) = fault
fails_in (suc k) [] = false
fails_in (suc k) (a ∷ []) = false
fails_in (suc k) (a ∷ b ∷ faults) = fails_in k faults

abbrev pub sent_once : Outgoing → Desk → Desk
sent_once out s = record s { sent = s.sent ++ (out ∷ []) }

abbrev pub sent_or : Bool → Err → Outgoing → Desk → Result Err (Unit {0}) × Desk
sent_or fails x out s = if fails then (err x, s) else (ok tt, sent_once out s)

-- How the sending ends that may make n + 1 attempts.
abbrev pub ended : ℕ → Outgoing → Desk → List Bool → Result Err (Unit {0}) × Desk
ended n out s faults =
    if leb n (rounds faults)
    then sent_or (fails_in n faults) failed out s
    else sent_or (fails_in (rounds faults) faults) cancelled out s

abbrev pub outcome : Result Err (Unit {0}) × Env Desk → Result Err (Unit {0}) × Desk
outcome (r, e) = (r, e.state)

no_more : (k : ℕ) → leb 0 k ≡ true
no_more k = ground arith

none_left : (n : ℕ) → leb (suc n) 0 ≡ false
none_left n = ground arith

one_less : (n k : ℕ) → leb (suc n) (suc k) ≡ leb n k
one_less n k = ground arith

attempts-ended :
    (n : ℕ) (out : Outgoing) (s : Desk) (faults : List Bool)
    → outcome (attempts (suc n) out (record { state = s; faults = faults })) ≡ ended n out s faults
unfolding attempts attempt wait call pure raise try ◌>>=◌
attempts-ended zero out s [] = refl
attempts-ended zero out s (false ∷ faults) = refl
attempts-ended zero out s (true ∷ []) = refl
attempts-ended zero out s (true ∷ true ∷ faults) = refl
attempts-ended zero out s (true ∷ false ∷ faults) = rw (no_more (suc (rounds faults))) refl
attempts-ended (suc n) out s [] = rw (none_left n) refl
attempts-ended (suc n) out s (false ∷ faults) = rw (none_left n) refl
attempts-ended (suc zero) out s (true ∷ []) = refl
attempts-ended (suc (suc n)) out s (true ∷ []) = rw (one_less (suc n) 0) (rw (none_left n) refl)
attempts-ended (suc n) out s (true ∷ true ∷ faults) = rw (none_left n) refl
attempts-ended (suc n) out s (true ∷ false ∷ faults) =
    rw (one_less n (rounds faults)) (attempts-ended n out s faults)

-- A post whose address is not parsed fails at once.
abbrev pub after_parse :
    Option Url → Result Err (Unit {0}) × Desk → Desk → Result Err (Unit {0}) × Desk
after_parse none r s = (err failed, s)
after_parse (some u) r s = r

if_request-ended :
    (u : Option Url) (out : Outgoing) (s : Desk) (faults : List Bool)
    → outcome (if_request u (attempts 3 out) (record { state = s; faults = faults }))
      ≡ after_parse u (ended 2 out s faults) s
unfolding raise
if_request-ended none out s faults = refl
if_request-ended (some u) out s faults = attempts-ended 2 out s faults

-- A mail, or a post, is sent once or not at all. Where the first two attempts fail and neither wait after
-- them is cancelled, the third decides: it sends the message, or the error says that all have failed. Else
-- the first attempt decides that succeeds or whose wait is cancelled: it sends the message, or the error
-- is that of the context. A post to an address that cannot be parsed fails with no attempt. Where there is
-- an error nothing has changed.
pub attempts_lem :
    (conf : Settings) (from to : String) (msg : EmailMessage) (webhook_url channel text : String)
    (s : Desk) (faults : List Bool)
    → let e : Env Desk = record { state = s; faults = faults } in
      (outcome (send_email conf from to msg e)
        ≡ ended 2 (raw_mail conf from to msg s.clock) s faults)
      × (outcome (send_mattermost conf webhook_url channel text e)
          ≡ after_parse
              (conf.parse_url webhook_url)
              (ended 2 (post webhook_url channel text) s faults)
              s)
unfolding send_email send_mattermost gets ◌>>=◌
attempts_lem conf from to msg webhook_url channel text s faults = (
  attempts-ended 2 (raw_mail conf from to msg s.clock) s faults,
  if_request-ended (conf.parse_url webhook_url) (post webhook_url channel text) s faults,
)
