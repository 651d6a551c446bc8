-- ===== src/Scheduling/Handlers/Accounts/Tokens.antt =====
-- To what tenant a webhook token resolves (services/scheduling/internal/tokenindex/index.go and
-- handler/handler.go beside it).
use sreon_call.Prelude.{
  ◌≡◌, refl, sym, ap, ◌∙◌, inl, inr, String, str_eq, eq_iff, List, [], ◌∷◌, map, Bool, true, false,
  not, Option, some, if◌then◌else◌, Bool-cases, Result, ok, filter, find, any,
}
use sreon_call.Effects.{calm, Err, call, pure, try, ◌>>=◌}
use sreon_call.Effects.Http.{Reply, no_content}
use sreon_call.Scheduling.Roster.{TokenRow, TokenHashEntry, Roster}
use sreon_call.Scheduling.Roster.Tenants.{entry_of, owned_token, of_hash, list_webhook_token_hashes}
use sreon_call.Scheduling.Roster.Tenants
use sreon_call.Scheduling.Roster.TokenIndex.{has_hash, put, put_all, set_many, del}
use sreon_call.Scheduling.Handlers.{Payload, Library}
use sreon_call.Scheduling.Handlers.Accounts.{delete_webhook_token, rehydrate}

abbrev pub resolve : String → List TokenHashEntry → Option TokenHashEntry
resolve hash index = find (has_hash hash) index

-- The last of the entries with this hash, or else what was there.
abbrev pub last_or : String → List TokenHashEntry → Option TokenHashEntry → Option TokenHashEntry
last_or hash [] old = old
last_or hash (e ∷ es) old = last_or hash es (if has_hash hash e then some e else old)

resolve-filter :
    (hash : String) (q : TokenHashEntry → Bool) (index : List TokenHashEntry)
    → ((x : TokenHashEntry) → has_hash hash x ≡ true → q x ≡ true)
    → resolve hash (filter q index) ≡ resolve hash index
resolve-filter hash q [] h = refl
resolve-filter hash q (x ∷ xs) h = elim (Bool-cases (has_hash hash x)) [
  | inl hit ↦ rw (h x hit) (rw hit refl)
  | inr miss ↦ elim (Bool-cases (q x)) [
    | inl kept ↦ rw kept (rw miss (resolve-filter hash q xs h))
    | inr left ↦ rw left (rw miss (resolve-filter hash q xs h))
  ]
]

other_hash :
    (hash : String) (e x : TokenHashEntry)
    → has_hash hash e ≡ false
    → has_hash hash x ≡ true
    → not (has_hash e.hash x) ≡ true
other_hash hash e x he hx = elim (Bool-cases (str_eq x.hash e.hash)) [
  | inl same ↦
      let same_hash : e.hash ≡ hash =
        sym ((eq_iff x.hash e.hash).0 same) ∙ (eq_iff x.hash hash).0 hx in
      let k : str_eq e.hash hash ≡ true = (eq_iff e.hash hash).1 same_hash in cc
  | inr miss ↦ rw miss refl
]

resolve-put :
    (hash : String) (e : TokenHashEntry) (index : List TokenHashEntry)
    → resolve hash (put e index) ≡ (if has_hash hash e then some e else resolve hash index)
resolve-put hash e index = elim (Bool-cases (has_hash hash e)) [
  | inl hit ↦ rw hit refl
  | inr miss ↦
      rw miss (
        resolve-filter hash (λ x. not (has_hash e.hash x)) index
          (λ x k. other_hash hash e x miss k))
]

resolve-put_all :
    (hash : String) (es index : List TokenHashEntry)
    → resolve hash (put_all es index) ≡ last_or hash es (resolve hash index)
resolve-put_all hash [] index = refl
resolve-put_all hash (e ∷ es) index =
    resolve-put_all hash es (put e index) ∙ ap (last_or hash es) (resolve-put hash e index)

set_many_known :
    (es : List TokenHashEntry) (s : Roster)
    → (set_many es (calm s)).1.state.index ≡ put_all es s.index
unfolding set_many call pure
set_many_known [] s = refl
set_many_known (e ∷ es) s = refl

-- A start of the service at which no call fails leaves each hash to resolve to the tenant of the last row
-- with the hash, and a hash of no row to resolve as it did before.
pub rehydrate_lem :
    (s : Roster) (hash : String)
    → resolve hash (rehydrate (calm s)).1.state.index
      ≡ last_or hash (map entry_of s.tokens) (resolve hash s.index)
unfolding rehydrate list_webhook_token_hashes call pure try ◌>>=◌
rehydrate_lem s hash =
    ap (resolve hash) (set_many_known (map entry_of s.tokens) s)
    ∙ resolve-put_all hash (map entry_of s.tokens) s.index

none_with :
    (hash : String) (rows : List TokenRow) (old : Option TokenHashEntry)
    → any (of_hash hash) rows ≡ false
    → last_or hash (map entry_of rows) old ≡ old
none_with hash [] old h = refl
none_with hash (r ∷ rows) old h = elim (Bool-cases (of_hash hash r)) [
  | inl hit ↦ let q = rw hit at h in cc
  | inr miss ↦
      ap (λ b. last_or hash (map entry_of rows) (if b then some (entry_of r) else old)) miss
      ∙ none_with hash rows old (rw miss at h)
]

-- A token that is in the table, whose hash resolves to its tenant and is the hash of no row but those that
-- are deleted: where Redis fails while the token is revoked, the answer is 204 all the same, the hash
-- resolves to the tenant afterwards, and still does after the service has started again with no failure.
pub revoked_resolves :
    (lib : Library) (slug id : String) (row : TokenRow) (s : Roster)
    → find (owned_token slug id) s.tokens ≡ some row
    → resolve row.token_hash s.index ≡ some (entry_of row)
    → any (of_hash row.token_hash) (filter (λ r. not (owned_token slug id r)) s.tokens) ≡ false
    → let out =
        delete_webhook_token lib true slug id (record { state = s; faults = false ∷ true ∷ [] }) in
      (◌≡◌ {A = Result Err (Reply Payload)} out.0 (ok (record { code = 204; body = no_content })))
      × (resolve row.token_hash out.1.state.index ≡ some (entry_of row))
      × (resolve row.token_hash (rehydrate (calm out.1.state)).1.state.index ≡ some (entry_of row))
unfolding delete_webhook_token Tenants.delete_webhook_token del call pure try ◌>>=◌
revoked_resolves lib slug id row s found known gone =
    let rest = filter (λ r. not (owned_token slug id r)) s.tokens in
    rw found (
      refl,
      known,
      rehydrate_lem (record s { tokens = rest }) row.token_hash
          ∙ none_with row.token_hash rest (resolve row.token_hash s.index) gone
          ∙ known,
    )
