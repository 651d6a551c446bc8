-- ===== src/Notification/Dispatcher.antt =====
-- services/notification/internal/dispatcher/email.go and mattermost.go. An attempt to send is a call, and so
-- is a wait between two attempts: it fails where the context is cancelled before the wait is over. How
-- long the waits are is left out.
pub mod Attempts
use Prim.Native.String.{◌++◌ as ◌<>◌}
use sreon_call.Prelude.{
  ℕ, zero, suc, String, str_eq, List, [], ◌∷◌, ◌++◌, Bool, true, false, not, if◌then◌else◌, Option,
  none, some, Result, ok, err,
}
use sreon_call.Effects.{Err, failed, cancelled, Io, call, pure, raise, try, gets, ◌>>=◌, ◌>>◌}
use sreon_call.Notification.Types.{EmailMessage, Outgoing, mail, post, Desk, Url, Settings}

abbrev pub line : String → String → String
line name value = name <> (": " <> (value <> "\n"))

-- A line that is left out where the value is empty.
abbrev pub line_if : String → String → String
line_if name value = if str_eq value "" then "" else line name value

module _ (conf : Settings) where
  unfoldable pub plain_subject : EmailMessage → String
  plain_subject msg =
      if str_eq msg.title ""
      then "[SRE OnCall] Incident "
        <> (msg.incident_id <> (" escalated (tier " <> (conf.format_int msg.tier <> ")")))
      else "[SRE OnCall] [" <> (msg.severity <> ("] " <> msg.title))

  unfoldable pub subject : EmailMessage → String
  subject msg =
      if str_eq msg.subject_prefix ""
      then plain_subject msg
      else msg.subject_prefix <> (" " <> plain_subject msg)

  unfoldable pub body : EmailMessage → ℕ → String
  body msg now =
      line "Incident" msg.incident_id
      <> (line "Tenant" msg.tenant_id
          <> (line_if "Title" msg.title
              <> (line_if "Severity" msg.severity
                  <> (line_if "Status" msg.status
                      <> (line "Tier" (conf.format_int msg.tier)
                          <> (line_if "Link" msg.link <> line "Time" (conf.format_time now)))))))

  unfoldable pub headers : String → String → EmailMessage → String
  headers from to msg =
      "From: "
      <> (from
          <> ("\r\nTo: "
              <> (to
                  <> ("\r\n"
                      <> ((if str_eq msg.reply_to ""
                            then ""
                            else "Reply-To: " <> (msg.reply_to <> "\r\n"))
                          <> ("Subject: "
                              <> (subject msg
                                  <> "\r\nMIME-Version: 1.0\r\nContent-Type: text/plain; charset=\"utf-8\"\r\n")))))))

  unfoldable pub raw_mail : String → String → EmailMessage → ℕ → Outgoing
  raw_mail from to msg now = mail from to (headers from to msg <> ("\r\n" <> body msg now))

-- `smtp.SendMail`, or a request that is answered by a status of 200 to 299.
unfoldable pub attempt : Outgoing → Io Desk (Unit {0})
attempt out = call λ s. (ok tt, record s { sent = s.sent ++ (out ∷ []) })

abbrev pub or_cancelled : Result Err (Unit {0}) → Io Desk (Unit {0})
or_cancelled (ok _) = pure tt
or_cancelled (err _) = raise cancelled

-- The `select` between `ctx.Done()` and `time.After`.
unfoldable pub wait : Io Desk (Unit {0})
wait = do r ← try (call λ s. (ok tt, s)); or_cancelled r

-- After an attempt: the first argument is how many attempts are left, and there is no wait after the last.
abbrev pub or_again : ℕ → Result Err (Unit {0}) → Io Desk (Unit {0}) → Io Desk (Unit {0})
or_again n (ok _) again = pure tt
or_again zero (err x) again = again
or_again (suc n) (err x) again = wait >> again

unfoldable pub attempts : ℕ → Outgoing → Io Desk (Unit {0})
attempts zero out = raise failed
attempts (suc n) out = do r ← try (attempt out); or_again n r (attempts n out)

unfoldable pub send_email : Settings → String → String → EmailMessage → Io Desk (Unit {0})
send_email conf from to msg = do
  now ← gets (λ s. s.clock)
  attempts 3 (raw_mail conf from to msg now)

-- `http.NewRequestWithContext` fails on an address that `url.Parse` refuses, in the first round.
abbrev pub if_request : Option Url → Io Desk (Unit {0}) → Io Desk (Unit {0})
if_request none next = raise failed
if_request (some u) next = next

unfoldable pub send_mattermost : Settings → String → String → String → Io Desk (Unit {0})
send_mattermost conf webhook_url channel text =
    if_request (conf.parse_url webhook_url) (attempts 3 (post webhook_url channel text))
