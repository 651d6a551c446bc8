-- ===== src/Escalation/Claim/Outcome.antt =====
-- What one worker does: `AdvanceOrExhaust` of services/escalation/internal/escalator/escalator.go.
use sreon_call.Prelude.{
  ℕ, zero, suc, ◌+◌, ◌≤◌, ◌≡◌, refl, sym, ap, ◌∙◌, ◌⊎◌, inl, inr, String, str_eq, Bool, true, false,
  ◌&&◌, Option, none, some, arith, Result, ok, err, subst, ok_injective, length, find, any,
  any-update_where, find_passes,
}
use sreon_call.Prelude.Int.{ℤ, pos, negsuc, suc_ℤ, eq_ℤ}
use sreon_call.Effects.{
  Err, not_found, conflict, failed, cancelled, dropped, Env, Io, pure, raise, try, gets, ◌>>=◌,
  ◌>>◌,
}
use sreon_call.Effects.Evolves.{Evolves}
use sreon_call.Effects.Cases.{call-cases, call-read}
use sreon_call.Escalation.Types.{PolicyTier, EscalationState, EscalationHistory, World}
use sreon_call.Escalation.Policies.{get_tier_by_number, found, same_tier}
use sreon_call.Escalation.States.{claimable, write_state, advance_escalation_state}
use sreon_call.Escalation.Escalator.{
  entry, nobody, publish, exhausted_event, trigger_tier, after_claim, exhaust, advance_to, go_on,
  advance_or_exhaust, seconds,
}
use sreon_call.Escalation.Claim.Quiet.{Loud, publish-Loud, trigger_tier-Loud, logged-Loud}
use sreon_call.Escalation.Claim.Guard.{advance-cases}

-- No row has the tier and the status that a worker read.
abbrev pub IsStale : EscalationState → World → Type 0
IsStale st s = any (claimable st.id st.current_tier "active") s.states ≡ false

after_claim-err :
    (x : Err) (next : Io World (Unit {0})) (e : Env World) → (after_claim (err x) next e).1 ≡ e
unfolding after_claim pure raise
after_claim-err not_found next e = refl
after_claim-err conflict next e = refl
after_claim-err failed next e = refl
after_claim-err dropped next e = refl
after_claim-err cancelled next e = refl

-- The claim of `exhaust` and of `advance_to`, and what follows it.
abbrev claim_then :
    EscalationState → ℤ → Option EscalationHistory → Io World (Unit {0}) → Io World (Unit {0})
claim_then st tier h next e =
    let (r, e') = advance_escalation_state st tier "active" h e in after_claim r next e'

exhaust_lem :
    (st : EscalationState) (e : Env World)
    → exhaust st e
      ≡ claim_then
          (record st { status = "exhausted"; escalate_at = e.state.clock })
          st.current_tier
          (some (entry st "exhausted" st.current_tier nobody))
          (try (publish (exhausted_event st)) >> pure tt)
          e
unfolding exhaust gets ◌>>=◌ try
exhaust_lem st e = refl

-- The state with which `advance_to` claims the row.
abbrev pub next_state : EscalationState → PolicyTier → ℕ → EscalationState
next_state st tier now = record st {
  current_tier = tier.tier_number;
  escalate_at = now + seconds tier.timeout_seconds;
}

advance_to_lem :
    (st : EscalationState) (tier : PolicyTier) (e : Env World)
    → advance_to st tier e
      ≡ claim_then
          (next_state st tier e.state.clock)
          st.current_tier
          none
          (try (trigger_tier (next_state st tier e.state.clock) tier) >> pure tt)
          e
unfolding advance_to gets ◌>>=◌ try
advance_to_lem st tier e = refl

-- What one worker does: nothing, or the state that it read is gone and one event at most is
-- published. A worker whose state is gone does nothing.
abbrev pub Once : EscalationState → World → World → Type 0
Once st s t = (t ≡ s) ⊎ (¬ IsStale st s × IsStale st t × (length t.outbox ≤ suc (length s.outbox)))

-- The state that a worker writes.
abbrev written : EscalationState → ℤ → String → ℕ → EscalationState
written st tier status at = record st { current_tier = tier; status = status; escalate_at = at }

module _ (st : EscalationState) (tier : ℤ) (status : String) (at : ℕ) (h : Option EscalationHistory)
    (next : Io World (Unit {0}))
    (gone : (now : ℕ) (r : EscalationState)
      → claimable st.id st.current_tier "active" (write_state (written st tier status at) now r)
        ≡ false)
    (loud : Evolves Loud next) where
  abbrev claim : Env World → Result Err (Unit {0}) × Env World
  claim = advance_escalation_state (written st tier status at) st.current_tier "active" h

  claim_then-Once :
      (e : Env World)
      → Once st e.state (claim_then (written st tier status at) st.current_tier h next e).1.state
  unfolding after_claim
  claim_then-Once e =
      elim (advance-cases (written st tier status at) st.current_tier "active" h e) [
        | inl (x, fails, same) ↦ inl (
            ap (λ y. (after_claim y next (claim e).1).1.state) fails
            ∙ ap (λ (y : Env World). y.state) (after_claim-err x next (claim e).1)
            ∙ same)
        | inr (hit, done, rows, box) ↦
            let (states, published) = loud.at (claim e).1 in
            let last = ap (λ y. (after_claim y next (claim e).1).1.state) done in
            inr (
              λ stale. cc,
              ap (λ (w : World). any (claimable st.id st.current_tier "active") w.states) last
                  ∙ ap (any (claimable st.id st.current_tier "active")) (states ∙ rows)
                  ∙ any-update_where (claimable st.id st.current_tier "active")
                      (write_state (written st tier status at) e.state.clock) e.state.states
                      (gone e.state.clock),
              omega (arith, ap (λ (w : World). length w.outbox) last, ap length box, published),
            )
      ]

exhausted_gone :
    (st : EscalationState) (at now : ℕ) (r : EscalationState)
    → claimable st.id st.current_tier "active"
        (write_state (written st st.current_tier "exhausted" at) now r)
      ≡ false
exhausted_gone st at now r = ground arith

suc_differs : (a c : ℤ) → eq_ℤ a (suc_ℤ c) ≡ true → eq_ℤ a c ≡ false
suc_differs (pos m) (pos n) h = ground arith
suc_differs (pos m) (negsuc n) h = refl
suc_differs (negsuc m) (pos n) h = refl
suc_differs (negsuc m) (negsuc zero) h = cc
suc_differs (negsuc m) (negsuc (suc n)) h = ground arith

tier_gone :
    (st : EscalationState) (tier : ℤ) (status : String) (at now : ℕ) (r : EscalationState)
    → eq_ℤ tier st.current_tier ≡ false
    → claimable st.id st.current_tier "active" (write_state (written st tier status at) now r)
      ≡ false
tier_gone st tier status at now r h = ground arith

exhaust-Once : (st : EscalationState) (e : Env World) → Once st e.state (exhaust st e).1.state
exhaust-Once st e =
    subst (λ (y : Result Err (Unit {0}) × Env World). Once st e.state y.1.state)
      (sym (exhaust_lem st e))
      (claim_then-Once st st.current_tier "exhausted" e.state.clock _ _
        (exhausted_gone st e.state.clock)
        (logged-Loud (publish (exhausted_event st)) (publish-Loud _)) e)

advance_to-Once :
    (st : EscalationState) (tier : PolicyTier) (e : Env World)
    → eq_ℤ tier.tier_number st.current_tier ≡ false
    → Once st e.state (advance_to st tier e).1.state
advance_to-Once st tier e h =
    subst (λ (y : Result Err (Unit {0}) × Env World). Once st e.state y.1.state)
      (sym (advance_to_lem st tier e))
      (claim_then-Once st tier.tier_number st.status (e.state.clock + seconds tier.timeout_seconds)
        _ _
        (λ now r.
          tier_gone st tier.tier_number st.status (e.state.clock + seconds tier.timeout_seconds) now
            r h)
        (logged-Loud _ (trigger_tier-Loud _ tier)) e)

-- The outcomes of `GetTierByNumber`.
go_on-Once :
    (st : EscalationState) (r : Result Err PolicyTier) (e : Env World)
    → ((tier : PolicyTier) → r ≡ ok tier → eq_ℤ tier.tier_number st.current_tier ≡ false)
    → Once st e.state (go_on st r e).1.state
unfolding go_on raise
go_on-Once st (err not_found) e h = exhaust-Once st e
go_on-Once st (err conflict) e h = inl refl
go_on-Once st (err failed) e h = inl refl
go_on-Once st (err dropped) e h = inl refl
go_on-Once st (ok tier) e h = advance_to-Once st tier e (h tier refl)
go_on-Once st (err cancelled) e h = inl refl

found-ok : (o : Option PolicyTier) (t : PolicyTier) → found o ≡ ok t → o ≡ some t
found-ok none t h = cc
found-ok (some u) t h = ap some (ok_injective h)

second_holds : (a b : Bool) → (a && b) ≡ true → b ≡ true
second_holds a b h = ground arith

next_tier_differs :
    (st : EscalationState) (e : Env World) (tier : PolicyTier)
    → (get_tier_by_number st.policy_id (suc_ℤ st.current_tier) e).0 ≡ ok tier
    → eq_ℤ tier.tier_number st.current_tier ≡ false
unfolding get_tier_by_number
next_tier_differs st e tier h =
    elim (call-cases
      (λ s. (found (find (same_tier st.policy_id (suc_ℤ st.current_tier)) s.tiers), s)) e) [
        | inl (x, _) ↦ cc
        | inr (r, _) ↦ suc_differs tier.tier_number st.current_tier (
            second_holds (str_eq tier.policy_id st.policy_id)
              (eq_ℤ tier.tier_number (suc_ℤ st.current_tier))
              (find_passes (same_tier st.policy_id (suc_ℤ st.current_tier)) e.state.tiers tier (
                found-ok (find (same_tier st.policy_id (suc_ℤ st.current_tier)) e.state.tiers) tier
                  (sym r ∙ h))))
      ]

get_tier_same :
    (st : EscalationState) (e : Env World)
    → (get_tier_by_number st.policy_id (suc_ℤ st.current_tier) e).1.state ≡ e.state
unfolding get_tier_by_number
get_tier_same st e =
    call-read (λ s. found (find (same_tier st.policy_id (suc_ℤ st.current_tier)) s.tiers)) e

pub advance_or_exhaust-Once :
    (st : EscalationState) (e : Env World) → Once st e.state (advance_or_exhaust st e).1.state
unfolding advance_or_exhaust ◌>>=◌ try
advance_or_exhaust-Once st e =
    let (r, e') = get_tier_by_number st.policy_id (suc_ℤ st.current_tier) e in
    subst (λ s. Once st s (go_on st r e').1.state) (get_tier_same st e)
      (go_on-Once st r e' (next_tier_differs st e))
