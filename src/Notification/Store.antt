-- ===== src/Notification/Store.antt =====
-- services/notification/internal/store/store.go, and the contacts of
-- services/notification/internal/handler/handler.go.
use sreon_call.Prelude.{
  ℕ, suc, ◌+◌, String, str_eq, List, [], ◌∷◌, ◌++◌, Bool, ◌&&◌, Option, none, some, if◌then◌else◌,
  Result, ok, err, any, find, update_where,
}
use sreon_call.Effects.{Err, not_found, Io, call, pure, raise, try, ◌>>=◌}
use sreon_call.Escalation.Policies.{found}
use sreon_call.Notification.Types.{UserContact, NotificationLog, Desk}

-- UNIQUE (user_id, tenant_id).
abbrev pub contact_of : String → String → UserContact → Bool
contact_of tenant_id user_id c = str_eq c.user_id user_id && str_eq c.tenant_id tenant_id

-- The row that the statement leaves: a new one, or the old one with the fields that it sets.
abbrev pub upserted : UserContact → ℕ → String → Option UserContact → UserContact
upserted c now id none = record c { id = id; created_at = now; updated_at = now }
upserted c now id (some old) = record old {
  email = c.email;
  mattermost_username = c.mattermost_username;
  enabled_channels = c.enabled_channels;
  updated_at = now;
}

unfoldable pub upsert_contact : UserContact → Io Desk UserContact
upsert_contact c = call λ s.
    let mine = contact_of c.tenant_id c.user_id in
    let row = upserted c s.clock (s.uuid s.next_id) (find mine s.contacts) in
    (
      ok (record c { id = row.id; created_at = row.created_at; updated_at = row.updated_at }),
      record s {
        contacts =
            if any mine s.contacts
            then update_where mine (λ _. row) s.contacts
            else s.contacts ++ (row ∷ []);
        next_id = suc s.next_id;
      },
    )

unfoldable pub get_contact : String → String → Io Desk UserContact
get_contact tenant_id user_id =
    call λ s. (found (find (contact_of tenant_id user_id) s.contacts), s)

unfoldable pub append_log : NotificationLog → Io Desk (Unit {0})
append_log l = call λ s. (
  ok tt,
  record s {
    logs = s.logs ++ (record l { id = s.uuid s.next_id; created_at = s.clock } ∷ []);
    next_id = suc s.next_id;
  },
)

-- ── The handlers, past the decoding of the request

abbrev pub contact_with : String → String → String → String → List String → UserContact
contact_with tenant_id user_id email username channels = record {
  id = "";
  user_id = user_id;
  tenant_id = tenant_id;
  email = email;
  mattermost_username = username;
  enabled_channels = channels;
  created_at = 0;
  updated_at = 0;
}

abbrev pub or_empty_contact : String → String → Result Err UserContact → Io Desk UserContact
or_empty_contact tenant user_id (ok c) = pure c
or_empty_contact tenant user_id (err not_found) = pure (contact_with tenant user_id "" "" [])
or_empty_contact tenant user_id (err x) = raise x

-- An error is answered by the status 500.
unfoldable pub read_contact : String → String → Io Desk UserContact
read_contact tenant user_id = do
  r ← try (get_contact tenant user_id)
  or_empty_contact tenant user_id r

unfoldable pub put_contact : String → String → String → String → List String → Io Desk UserContact
put_contact tenant user_id email username channels =
    upsert_contact (contact_with tenant user_id email username channels)

abbrev pub counted : Result Err UserContact → ℕ
counted (ok _) = 1
counted (err _) = 0

-- One tenant of the loop of `SyncContacts`, by what was read: how many contacts were written.
unfoldable pub sync_found : String → String → String → Result Err UserContact → Io Desk ℕ
sync_found sub email tenant (err not_found) = do
  r ← try (upsert_contact (contact_with tenant sub email "" ("email" ∷ [])))
  pure (counted r)
sync_found sub email tenant (err x) = pure 0
sync_found sub email tenant (ok old) =
    if str_eq old.email email
    then pure 0
    else do r ← try (upsert_contact (record old { email = email })); pure (counted r)

unfoldable pub sync_tenants : String → String → List String → Io Desk ℕ
sync_tenants sub email [] = pure 0
sync_tenants sub email (tenant ∷ rest) = do
  r ← try (get_contact tenant sub)
  n ← sync_found sub email tenant r
  ns ← sync_tenants sub email rest
  pure (n + ns)
