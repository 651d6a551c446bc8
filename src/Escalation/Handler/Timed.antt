-- ===== src/Escalation/Handler/Timed.antt =====
-- The time outs of the tiers in the tables of services/escalation, whatever the service is asked.
use sreon_call.Prelude.{
  zero, suc, ◌<◌, inl, inr, String, str_eq, List, [], ◌∷◌, Bool, true, false, Option, none, some,
  if◌then◌else◌, Bool-cases, All, All-append, All-filter, arith, Result, any, not,
}
use sreon_call.Prelude.Int.{ℤ, pos, negsuc}
use sreon_call.Effects.{Err}
use sreon_call.Effects.Evolves.{
  Evolves, Preorder, Evolves-call, Evolves-bind, Evolves-pure, Evolves-with_tx, evolves_rules,
}
use sreon_call.Effects.Http.Rules.{http_rules, Evolves-reply}
use sreon_call.Escalation.Types.{PolicyTier, Policy, World}
use sreon_call.Escalation.Policies
use sreon_call.Escalation.Policies.{
  insert_policy, insert_tier, insert_tiers, list_tiers, select_policy, select_policies, load_tiers,
  get_tier_by_number, get_tenant_config, upsert_tenant_config, delete_tenant_config, owned_policy,
}
use sreon_call.Escalation.Handler.{
  Answer, TierBody, PolicyBody, add_tier, tier_with, checked_tiers, store_checked, unless_empty,
  create_policy, delete_policy,
}

-- Every tier has a time out.
abbrev pub IsTimed : World → Type 0
IsTimed s = All (λ t. 0 < t.timeout_seconds) s.tiers

abbrev pub Keeps : World → World → Type 0
Keeps s t = IsTimed s → IsTimed t

pub Keeps-Preorder : Preorder Keeps
Keeps-Preorder = record { same = λ s h. h; chain = λ s t u f g h. g (f h) }

abbrev Timed : List PolicyTier → Type 0
Timed tiers = All (λ t. 0 < t.timeout_seconds) tiers

pub either :
    {A : Type 0} (b : Bool) (x y : Result Err A × World)
    → IsTimed x.1
    → IsTimed y.1
    → IsTimed (if b then x else y).1
either true x y hx hy = hx
either false x y hx hy = hy

-- ── POST

insert_policy-Keeps : (p : Policy) → Evolves Keeps (insert_policy p)
unfolding insert_policy
insert_policy-Keeps p = Evolves-call Keeps-Preorder _ (λ s h. h)

insert_tier-Keeps :
    (policy_id : String) (t : PolicyTier)
    → 0 < t.timeout_seconds
    → Evolves Keeps (insert_tier policy_id t)
unfolding insert_tier
insert_tier-Keeps policy_id t timed =
    Evolves-call Keeps-Preorder _ (λ s h.
      either _ _ _ h (All-append (λ t. 0 < t.timeout_seconds) s.tiers (_ ∷ []) h (timed, tt)))

insert_tiers-Keeps :
    (policy_id : String) (tiers : List PolicyTier)
    → Timed tiers
    → Evolves Keeps (insert_tiers policy_id tiers)
unfolding insert_tiers
insert_tiers-Keeps policy_id [] h = Evolves-pure Keeps-Preorder _
insert_tiers-Keeps policy_id (t ∷ ts) h =
    Evolves-bind Keeps-Preorder _ _ (insert_tier-Keeps policy_id t h.0) λ row.
      Evolves-bind Keeps-Preorder _ _ (insert_tiers-Keeps policy_id ts h.1)
        λ rows. Evolves-pure Keeps-Preorder _

stored-Keeps : (p : Policy) → Timed p.tiers → Evolves Keeps (Policies.create_policy p)
unfolding Policies.create_policy
stored-Keeps p h = Evolves-with_tx Keeps-Preorder _ (
    Evolves-bind Keeps-Preorder _ _ (insert_policy-Keeps p) λ q.
      Evolves-bind Keeps-Preorder _ _ (insert_tiers-Keeps q.id p.tiers h)
        λ rows. Evolves-pure Keeps-Preorder _)

AreTimed : Option (List PolicyTier) → Type 0
AreTimed none = Unit
AreTimed (some tiers) = Timed tiers

add_tier-AreTimed :
    (t : TierBody) (timeout : ℤ) (rest : Option (List PolicyTier))
    → AreTimed rest
    → AreTimed (add_tier (tier_with t timeout) rest)
unfolding AreTimed
add_tier-AreTimed t (pos zero) rest h = tt
add_tier-AreTimed t (negsuc n) rest h = tt
add_tier-AreTimed t (pos (suc n)) none h = tt
add_tier-AreTimed t (pos (suc n)) (some tiers) h = (omega arith, h)

checked_tiers-AreTimed : (tiers : List TierBody) → AreTimed (checked_tiers tiers)
unfolding AreTimed checked_tiers
checked_tiers-AreTimed [] = tt
checked_tiers-AreTimed (t ∷ ts) =
    add_tier-AreTimed t t.timeout_seconds (checked_tiers ts) (checked_tiers-AreTimed ts)

store_checked-Keeps :
    (tenant name : String) (tiers : Option (List PolicyTier))
    → AreTimed tiers
    → Evolves Keeps (store_checked tenant name tiers)
unfolding store_checked AreTimed
store_checked-Keeps tenant name none h = Evolves-reply Keeps-Preorder _ _
store_checked-Keeps tenant name (some tiers) h =
    search (evolves_rules, http_rules, Keeps-Preorder, stored-Keeps)

unless_empty-Keeps :
    (tiers : List TierBody) (next : Answer)
    → Evolves Keeps next
    → Evolves Keeps (unless_empty tiers next)
unless_empty-Keeps [] next h = Evolves-reply Keeps-Preorder _ _
unless_empty-Keeps (t ∷ ts) next h = h

pub create_policy-Keeps :
    (tenant : String) (body : Option PolicyBody) → Evolves Keeps (create_policy tenant body)
unfolding create_policy
create_policy-Keeps tenant none = Evolves-reply Keeps-Preorder _ _
create_policy-Keeps tenant (some b) = search (
  evolves_rules, http_rules, Keeps-Preorder, unless_empty-Keeps, store_checked-Keeps,
  checked_tiers-AreTimed,
)

-- ── DELETE

removed-Keeps : (tenant id : String) → Evolves Keeps (Policies.delete_policy tenant id)
unfolding Policies.delete_policy
removed-Keeps tenant id = Evolves-call Keeps-Preorder _ (λ s h.
    elim (Bool-cases (not (any (owned_policy tenant id) s.policies))) [
      | inl unknown ↦ rw unknown h
      | inr known ↦ elim (Bool-cases (any (λ st. str_eq st.policy_id id) s.states)) [
        | inl used ↦ rw known (rw used h)
        | inr free ↦ rw known (
            rw free (
              All-filter (λ t. 0 < t.timeout_seconds) (λ t. not (str_eq t.policy_id id)) s.tiers h))
      ]
    ])

pub delete_policy-Keeps : (tenant id : String) → Evolves Keeps (delete_policy tenant id)
unfolding delete_policy
delete_policy-Keeps tenant id = search (evolves_rules, http_rules, Keeps-Preorder, removed-Keeps)
