-- ===== src/Escalation/Policies.antt =====
-- Policies and tenants' defaults in services/escalation/internal/store/store.go: each SQL statement is
-- one call that acts on the tables of services/escalation/migrations, with their unique and foreign
-- keys. Ids are well-formed UUIDs; Postgres refuses others, which is a call that fails.
use sreon_call.Prelude.{
  suc, ◌^◌, String, str_eq, List, [], ◌∷◌, ◌++◌, map, Bool, true, false, not, ◌&&◌, ◌||◌, Option,
  none, some, ltb, leb, if◌then◌else◌, Result, ok, err, filter, any, find, sort_by, update_where,
}
use sreon_call.Prelude.Int.{ℤ, pos, negsuc, eq_ℤ, leb_ℤ}
use sreon_call.Effects.{Err, not_found, failed, Io, call, pure, with_tx, ◌>>=◌}
use sreon_call.Escalation.Types.{PolicyTier, Policy, TenantConfig, World}

-- ── Policies

-- The column type INT.
abbrev pub in_int32 : ℤ → Bool
in_int32 (pos n) = ltb n (2 ^ 31)
in_int32 (negsuc n) = ltb n (2 ^ 31)

unfoldable pub insert_policy : Policy → Io World Policy
insert_policy p = call λ s.
    let row = record p { id = s.uuid s.next_id; tiers = []; created_at = s.clock } in
    (
      ok (record p { id = row.id; created_at = row.created_at }),
      record s { policies = s.policies ++ (row ∷ []); next_id = suc s.next_id },
    )

-- UNIQUE (policy_id, tier_number).
abbrev pub same_tier : String → ℤ → PolicyTier → Bool
same_tier policy_id n t = str_eq t.policy_id policy_id && eq_ℤ t.tier_number n

unfoldable pub insert_tier : String → PolicyTier → Io World PolicyTier
insert_tier policy_id t = call λ s.
    let row = record t { id = s.uuid s.next_id; policy_id = policy_id } in
    if any (same_tier policy_id t.tier_number) s.tiers
      || not (in_int32 t.tier_number && ltb t.timeout_seconds (2 ^ 31))
    then (err failed, s)
    else (ok row, record s { tiers = s.tiers ++ (row ∷ []); next_id = suc s.next_id })

-- The loop `for _, t := range p.Tiers`.
unfoldable pub insert_tiers : String → List PolicyTier → Io World (List PolicyTier)
insert_tiers policy_id [] = pure []
insert_tiers policy_id (t ∷ ts) = do
  row ← insert_tier policy_id t
  rows ← insert_tiers policy_id ts
  pure (row ∷ rows)

unfoldable pub create_policy : Policy → Io World Policy
create_policy p =
    with_tx
      do q ← insert_policy p; rows ← insert_tiers q.id p.tiers; pure (record q { tiers = rows })

unfoldable pub list_tiers : String → Io World (List PolicyTier)
list_tiers policy_id = call λ s. (
  ok (
      sort_by (λ a b. leb_ℤ a.tier_number b.tier_number)
        (filter (λ t. str_eq t.policy_id policy_id) s.tiers)),
  s,
)

-- `pgx.ErrNoRows` is reported as `ErrNotFound`.
abbrev pub found : {A : Type 0} → Option A → Result Err A
found none = err not_found
found (some a) = ok a

-- `RowsAffected() == 0` is reported as the error given.
abbrev pub affected : Bool → Err → Result Err (Unit {0})
affected true x = ok tt
affected false x = err x

abbrev pub owned_policy : String → String → Policy → Bool
owned_policy tenant_id id p = str_eq p.id id && str_eq p.tenant_id tenant_id

unfoldable pub select_policy : String → String → Io World Policy
select_policy tenant_id id = call λ s. (found (find (owned_policy tenant_id id) s.policies), s)

unfoldable pub get_policy : String → String → Io World Policy
get_policy tenant_id id = do
  p ← select_policy tenant_id id
  tiers ← list_tiers p.id
  pure (record p { tiers = tiers })

unfoldable pub select_policies : String → Io World (List Policy)
select_policies tenant_id = call λ s. (
  ok (
      sort_by (λ a b. leb a.created_at b.created_at)
        (filter (λ p. str_eq p.tenant_id tenant_id) s.policies)),
  s,
)

-- The loop that loads the tiers of each policy.
unfoldable pub load_tiers : List Policy → Io World (List Policy)
load_tiers [] = pure []
load_tiers (p ∷ ps) = do
  tiers ← list_tiers p.id
  rest ← load_tiers ps
  pure (record p { tiers = tiers } ∷ rest)

unfoldable pub list_policies : String → Io World (List Policy)
list_policies tenant_id = do ps ← select_policies tenant_id; load_tiers ps

abbrev pub unset_default : String → TenantConfig → TenantConfig
unset_default id c = elim c.default_policy_id [
  | none ↦ c
  | some p ↦ if str_eq p id then record c { default_policy_id = none } else c
]

-- A policy that an escalation state refers to cannot be deleted; its tiers go with it, and a
-- tenant's default is set to NULL.
unfoldable pub delete_policy : String → String → Io World (Unit {0})
delete_policy tenant_id id = call λ s.
    if not (any (owned_policy tenant_id id) s.policies)
    then (err not_found, s)
    else if any (λ st. str_eq st.policy_id id) s.states
    then (err failed, s)
    else (
      ok tt,
      record s {
        policies = filter (λ p. not (owned_policy tenant_id id p)) s.policies;
        tiers = filter (λ t. not (str_eq t.policy_id id)) s.tiers;
        configs = map (unset_default id) s.configs;
      },
    )

unfoldable pub get_tier_by_number : String → ℤ → Io World PolicyTier
get_tier_by_number policy_id n = call λ s. (found (find (same_tier policy_id n) s.tiers), s)

-- ── Tenant escalation config

abbrev pub config_of : String → TenantConfig → Bool
config_of tenant_id c = str_eq c.tenant_id tenant_id

unfoldable pub get_tenant_config : String → Io World TenantConfig
get_tenant_config tenant_id = call λ s. (found (find (config_of tenant_id) s.configs), s)

-- A default policy refers to a policy.
abbrev pub policy_exists : List Policy → Option String → Bool
policy_exists policies none = true
policy_exists policies (some id) = any (λ p. str_eq p.id id) policies

unfoldable pub upsert_tenant_config : TenantConfig → Io World (Unit {0})
upsert_tenant_config c = call λ s.
    let row = record c { updated_at = s.clock } in
    if not (policy_exists s.policies c.default_policy_id)
    then (err failed, s)
    else if any (config_of c.tenant_id) s.configs
    then (ok tt, record s { configs = update_where (config_of c.tenant_id) (λ _. row) s.configs })
    else (ok tt, record s { configs = s.configs ++ (row ∷ []) })

unfoldable pub delete_tenant_config : String → Io World (Unit {0})
delete_tenant_config tenant_id = call λ s. (
  ok tt,
  record s {
    configs =
        update_where (config_of tenant_id)
          (λ c. record c { default_policy_id = none; updated_at = s.clock }) s.configs;
  },
)
