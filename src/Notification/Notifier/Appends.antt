-- ===== src/Notification/Notifier/Appends.antt =====
-- What the steps of services/notification/internal/notifier/notifier.go and of dispatcher/email.go and
-- dispatcher/mattermost.go beside it add to what was sent.
use sreon_call.Prelude.{
  ℕ, zero, suc, ◌≡◌, refl, sym, ap, ◌∙◌, String, List, [], ◌∷◌, ◌++◌, Bool, true, false, Option,
  none, some, All, All-append, Result, ok, err,
}
use mathlib.Core.List.{append-nil, append_assoc}
use sreon_call.Effects.{Err, Io}
use sreon_call.Effects.Evolves.{
  Evolves, Preorder, Evolves-call, Evolves-try, Evolves-bind, evolves_rules,
}
use sreon_call.Notification.Types.{NotificationLog, Outgoing, Desk, Url, Settings}
use sreon_call.Notification.Store.{append_log}
use sreon_call.Notification.RateLimit.{allow}
use sreon_call.Notification.Dispatcher.{attempt, attempts, or_cancelled, wait, or_again, if_request}
use sreon_call.Notification.Notifier.{dispatch_channel, send_allowed, note}

-- What was sent before, and then what satisfies P.
abbrev pub Sends : (Outgoing → Type 0) → Desk → Desk → Type 0
Sends P s t = (new : List Outgoing) × (t.sent ≡ s.sent ++ new) × All P new

pub Sends-Preorder : (P : Outgoing → Type 0) → Preorder (Sends P)
Sends-Preorder P = record {
  same = λ s. ([], sym (append-nil s.sent), tt);
  chain = λ s t u (a, p, ha) (b, q, hb).
      (a ++ b, q ∙ ap (λ l. l ++ b) p ∙ append_assoc s.sent a b, All-append P a b ha hb);
}

module _ (P : Outgoing → Type 0) where
  append_log-Sends : (l : NotificationLog) → Evolves (Sends P) (append_log l)
  unfolding append_log
  append_log-Sends l = Evolves-call (Sends-Preorder P) _ (λ s. ([], sym (append-nil s.sent), tt))

  allow-Sends : (conf : Settings) (a b c : String) → Evolves (Sends P) (allow conf a b c)
  unfolding allow
  allow-Sends conf a b c =
      Evolves-call (Sends-Preorder P) _ (λ s. ([], sym (append-nil s.sent), tt))

  attempt-Sends : (out : Outgoing) → P out → Evolves (Sends P) (attempt out)
  unfolding attempt
  attempt-Sends out h = Evolves-call (Sends-Preorder P) _ (λ s. (out ∷ [], refl, (h, tt)))

  or_cancelled-Sends : (r : Result Err (Unit {0})) → Evolves (Sends P) (or_cancelled r)
  or_cancelled-Sends (ok u) = search (evolves_rules, Sends-Preorder P)
  or_cancelled-Sends (err x) = search (evolves_rules, Sends-Preorder P)

  wait-Sends : Evolves (Sends P) wait
  unfolding wait
  wait-Sends =
      Evolves-bind (Sends-Preorder P) _ _
        (Evolves-try (Sends-Preorder P) _
          (Evolves-call (Sends-Preorder P) _ (λ s. ([], sym (append-nil s.sent), tt))))
        or_cancelled-Sends

  or_again-Sends :
      (n : ℕ) (r : Result Err (Unit {0})) (again : Io Desk (Unit {0}))
      → Evolves (Sends P) again
      → Evolves (Sends P) (or_again n r again)
  or_again-Sends n (ok u) again h = search (evolves_rules, Sends-Preorder P)
  or_again-Sends zero (err x) again h = h
  or_again-Sends (suc n) (err x) again h = Evolves-bind (Sends-Preorder P) _ _ wait-Sends λ _. h

  pub if_request-Sends :
      (u : Option Url) (next : Io Desk (Unit {0}))
      → Evolves (Sends P) next
      → Evolves (Sends P) (if_request u next)
  if_request-Sends none next h = search (evolves_rules, Sends-Preorder P)
  if_request-Sends (some u) next h = h

  pub attempts-Sends : (n : ℕ) (out : Outgoing) → P out → Evolves (Sends P) (attempts n out)
  unfolding attempts
  attempts-Sends zero out h = search (evolves_rules, Sends-Preorder P)
  attempts-Sends (suc n) out h =
      Evolves-bind (Sends-Preorder P) _ _ (Evolves-try (Sends-Preorder P) _ (attempt-Sends out h))
        λ r. or_again-Sends n r _ (attempts-Sends n out h)

  pub note-Sends : (l : NotificationLog) → Evolves (Sends P) (note l)
  note-Sends l = search (evolves_rules, Sends-Preorder P, append_log-Sends)

  send_allowed-Sends :
      (conf : Settings) (a b c d e : String) (send : Io Desk (Unit {0})) (ok_to : Bool)
      → Evolves (Sends P) send
      → Evolves (Sends P) (send_allowed conf a b c d e send ok_to)
  unfolding send_allowed
  send_allowed-Sends conf a b c d e send true h =
      Evolves-bind (Sends-Preorder P) _ _ (Evolves-try (Sends-Preorder P) send h) λ r. note-Sends _
  send_allowed-Sends conf a b c d e send false h = note-Sends _

  pub dispatch_channel-Sends :
      (conf : Settings) (a b c d e : String) (send : Io Desk (Unit {0}))
      → Evolves (Sends P) send
      → Evolves (Sends P) (dispatch_channel conf a b c d e send)
  unfolding dispatch_channel
  dispatch_channel-Sends conf a b c d e send h =
      Evolves-bind (Sends-Preorder P) _ _
        (Evolves-try (Sends-Preorder P) _ (allow-Sends conf a b d))
        λ r. send_allowed-Sends conf a b c d e send _ h
