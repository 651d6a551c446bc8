-- ===== src/Incident/Handler.antt =====
-- The handlers that change incidents in services/incident/internal/handler/handler.go. A request is
-- its decoded parts: a body that is not of the right form is `none`.
use sreon_call.Prelude.{
  ℕ, String, str_eq, List, [], ◌∷◌, Bool, ◌||◌, Option, none, some, if◌then◌else◌, Result, ok, err,
}
use sreon_call.Effects.{Err, not_found, conflict, Io, pure, try, ◌>>=◌, ◌>>◌}
use sreon_call.Incident.Types.{Labels, Incident, Comment, HistoryEntry, incident_updated, Tables}
use sreon_call.Incident.StateMachine.{InvalidTransition, validate}
use sreon_call.Incident.Incidents.{
  append_history, attach_alert, get_incident, get_labels, merge_labels, transition_status,
}
use sreon_call.Incident.Records.{
  add_comment, delete_comment, set_grouping_rule, delete_grouping_rule,
}
use sreon_call.Incident.Consumer.{changed, send}

pub data Content : Type 0 where
  no_content : Content
  text : String → Content
  incident : Incident → Content
  comment : Comment → Content
  labels : Labels → Content

pub record Reply : Type 0 where
  pub code : ℕ
  pub body : Content

abbrev pub reply : ℕ → Content → Io Tables Reply
reply code body = pure (record { code = code; body = body })

abbrev pub invalid_body : Io Tables Reply
invalid_body = reply 400 (text "invalid body")

abbrev pub missing : Io Tables Reply
missing = reply 404 (text "not found")

abbrev pub internal_error : Io Tables Reply
internal_error = reply 500 (text "internal error")

-- A value that was read, or the answer for an error.
abbrev pub with_read : {A : Type 0} → Result Err A → (A → Io Tables Reply) → Io Tables Reply
with_read (ok a) next = next a
with_read (err not_found) next = missing
with_read (err x) next = internal_error

-- As above where the handler looks for `ErrNotFound` alone and goes on after another error.
abbrev pub unless_missing : {A : Type 0} → Result Err A → Io Tables Reply → Io Tables Reply
unless_missing (err not_found) next = missing
unless_missing (err x) next = next
unless_missing (ok a) next = next

abbrev pub or_internal_error : {A : Type 0} → Result Err A → (A → Io Tables Reply) → Io Tables Reply
or_internal_error (ok a) next = next a
or_internal_error (err x) next = internal_error

abbrev pub log_entry : String → String → String → String → String → String → String → HistoryEntry
log_entry id incident_id tenant_id kind author old_value new_value = record {
  id = id;
  incident_id = incident_id;
  tenant_id = tenant_id;
  kind = kind;
  author = author;
  old_value = old_value;
  new_value = new_value;
  occurred_at = 0;
}

-- ── PATCH status

-- The answer to what `TransitionStatus` returned.
unfoldable pub answer_transition : String → Result Err Incident → Io Tables Reply
answer_transition tenant_slug (err conflict) =
    reply 409 (text "incident status changed concurrently")
answer_transition tenant_slug (err x) = internal_error
answer_transition tenant_slug (ok inc) = do
  try (send (incident_updated (record (changed inc) { tenant_slug = tenant_slug })))
  reply 200 (incident inc)

unfoldable pub change_status : String → String → String → String → String → String → Io Tables Reply
change_status tenant_id tenant_slug id caller old_status new_status = do
  r ← try (
      transition_status tenant_id id new_status old_status caller
        (some (log_entry "" id tenant_id "status_change" caller old_status new_status)))
  answer_transition tenant_slug r

abbrev pub if_valid : Result InvalidTransition (Unit {0}) → Io Tables Reply → Io Tables Reply
if_valid (ok _) next = next
if_valid (err _) next = reply 422 (text "invalid status transition")

unfoldable pub patch_read :
    String → String → String → String → String → Result Err Incident → Io Tables Reply
patch_read tenant_id tenant_slug id caller status r = with_read r λ inc.
    if_valid (validate inc.status status)
      (change_status tenant_id tenant_slug id caller inc.status status)

unfoldable pub patch_status : String → String → String → String → Option String → Io Tables Reply
patch_status tenant_id tenant_slug id caller none = invalid_body
patch_status tenant_id tenant_slug id caller (some status) =
    if str_eq status ""
    then invalid_body
    else do r ← try (get_incident tenant_id id); patch_read tenant_id tenant_slug id caller status r

-- ── Alerts and labels

unfoldable pub attach_read :
    String → String → String → String → Result Err Incident → Io Tables Reply
attach_read tenant_id id fingerprint source r = unless_missing r do
  a ← try (
      attach_alert (record {
        id = "";
        incident_id = id;
        tenant_id = tenant_id;
        fingerprint = fingerprint;
        source = source;
        group_key = "";
        status = "firing";
        attached_at = 0;
      }))
  or_internal_error a (λ _. reply 204 no_content)

-- The body is a fingerprint and a source.
unfoldable pub post_alert : String → String → Option (String × String) → Io Tables Reply
post_alert tenant_id id none = invalid_body
post_alert tenant_id id (some (fingerprint, source)) =
    if str_eq fingerprint ""
    then invalid_body
    else do r ← try (get_incident tenant_id id); attach_read tenant_id id fingerprint source r

-- `to_json` is `LabelsToJSON`, which calls encoding/json.
unfoldable pub labels_read :
    (Labels → String) → String → String → String → Labels → Result Err Incident → Io Tables Reply
labels_read to_json tenant_id id caller ls r = unless_missing r do
  merged ← try (merge_labels id ls)
  or_internal_error merged λ _. do
    try (append_history (log_entry "" id tenant_id "label_change" caller "" (to_json ls)))
    every ← try (get_labels id)
    or_internal_error every (λ found_labels. reply 200 (labels found_labels))

unfoldable pub put_labels :
    (Labels → String) → String → String → String → Option Labels → Io Tables Reply
put_labels to_json tenant_id id caller none = invalid_body
put_labels to_json tenant_id id caller (some ls) = do
  r ← try (get_incident tenant_id id)
  labels_read to_json tenant_id id caller ls r

-- ── Comments

unfoldable pub comment_read :
    String → String → String → String → Result Err Incident → Io Tables Reply
comment_read tenant_id id caller body r = with_read r λ inc.
    if str_eq inc.status "resolved"
    then reply 409 (text "cannot comment on a resolved incident")
    else do
      added ← try (
          add_comment (record {
            id = "";
            incident_id = id;
            tenant_id = tenant_id;
            body = body;
            author_id = caller;
            created_at = 0;
          }))
      or_internal_error added λ c. do
        try (append_history (log_entry "" id tenant_id "comment_added" c.author_id "" c.id))
        reply 201 (comment c)

unfoldable pub post_comment : String → String → String → Option String → Io Tables Reply
post_comment tenant_id id caller none = invalid_body
post_comment tenant_id id caller (some body) =
    if str_eq body ""
    then invalid_body
    else do r ← try (get_incident tenant_id id); comment_read tenant_id id caller body r

unfoldable pub remove_comment : String → String → Io Tables Reply
remove_comment tenant_id comment_id = do
  r ← try (delete_comment tenant_id comment_id)
  with_read r (λ _. reply 204 no_content)

-- ── Grouping rules

abbrev pub valid_source : String → Bool
valid_source source = str_eq source "alertmanager" || str_eq source "grafana"

abbrev pub invalid_source : Io Tables Reply
invalid_source = reply 422 (text "source must be alertmanager or grafana")

abbrev pub store_rule : String → String → Option (List String) → Io Tables Reply
store_rule tenant_id source none = invalid_body
store_rule tenant_id source (some []) = invalid_body
store_rule tenant_id source (some (l ∷ ls)) = do
  r ← try (set_grouping_rule tenant_id source (l ∷ ls))
  or_internal_error r (λ _. reply 204 no_content)

unfoldable pub put_grouping_rule : String → String → Option (List String) → Io Tables Reply
put_grouping_rule tenant_id source body =
    if valid_source source then store_rule tenant_id source body else invalid_source

abbrev pub delete_rule : String → String → Io Tables Reply
delete_rule tenant_id source = do
  r ← try (delete_grouping_rule tenant_id source)
  or_internal_error r (λ _. reply 204 no_content)

unfoldable pub remove_grouping_rule : String → String → Io Tables Reply
remove_grouping_rule tenant_id source =
    if valid_source source then delete_rule tenant_id source else invalid_source
