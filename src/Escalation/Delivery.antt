-- ===== src/Escalation/Delivery.antt =====
-- An escalation step that meets no failure: `AdvanceOrExhaust` of
-- services/escalation/internal/escalator/escalator.go.
use sreon_call.Prelude.{
  ℕ, suc, ◌≡◌, refl, ap, ◌∙◌, inl, inr, str_eq, List, [], ◌∷◌, ◌++◌, Bool, true, arith, ok, any,
  find, length, length-append, Bool-cases, Option-cases, update_where,
}
use sreon_call.Prelude.Int.{suc_ℤ}
use sreon_call.Effects.{Env, Io, call, gets, pure, try, with_tx, ◌>>=◌}
use sreon_call.Escalation.Types.{EscalationState, PolicyTier, Event, World}
use sreon_call.Escalation.Policies.{get_tier_by_number, same_tier}
use sreon_call.Escalation.States.{
  claimable, write_state, claim_state, append_history, advance_escalation_state,
}
use sreon_call.Escalation.Escalator.{
  resolve_on_call, get_on_call, trigger_tier, publish, after_claim, exhaust, advance_to, go_on,
  advance_or_exhaust,
}
use sreon_call.Escalation.Claim.{workers, workers-stale}
use sreon_call.Escalation.Claim.Outcome.{next_state, advance_or_exhaust-Once}

abbrev calm : World → Env World
calm s = record { state = s; faults = [] }

-- The action returns and publishes one event.
abbrev Tells : Io World (Unit {0}) → World → Type 0
Tells m s = ((m (calm s)).0 ≡ ok tt) × (length (m (calm s)).1.state.outbox ≡ suc (length s.outbox))

one_more : (evs : List Event) (ev : Event) → length (evs ++ (ev ∷ [])) ≡ suc (length evs)
one_more evs ev = omega (arith, length-append evs (ev ∷ []))

trigger_tier-Tells :
    (st : EscalationState) (tier : PolicyTier) (s : World) → Tells (trigger_tier st tier) s
unfolding trigger_tier resolve_on_call get_on_call append_history publish call pure try ◌>>=◌
trigger_tier-Tells st tier s = elim (Bool-cases (str_eq tier.notify_schedule_id "")) [
  | inl nobody_named ↦ rw nobody_named (refl, one_more s.outbox _)
  | inr named ↦ elim (Option-cases (s.on_call st.tenant_slug tier.notify_schedule_id)) [
    | inl silent ↦ rw named (rw silent (refl, one_more s.outbox _))
    | inr (who, answer) ↦ rw named (rw answer (refl, one_more s.outbox _))
  ]
]

exhaust-Tells :
    (st : EscalationState) (s : World)
    → any (claimable st.id st.current_tier "active") s.states ≡ true
    → Tells (exhaust st) s
unfolding exhaust advance_escalation_state claim_state append_history after_claim publish call gets
    with_tx pure try ◌>>=◌
exhaust-Tells st s h = rw h (refl, one_more s.outbox _)

advance_to-Tells :
    (st : EscalationState) (tier : PolicyTier) (s : World)
    → any (claimable st.id st.current_tier "active") s.states ≡ true
    → Tells (advance_to st tier) s
unfolding advance_to advance_escalation_state claim_state after_claim call gets with_tx pure try
    ◌>>=◌
advance_to-Tells st tier s h = rw h (
  refl,
  (trigger_tier-Tells (next_state st tier s.clock) tier (record s {
    states =
        update_where (claimable st.id st.current_tier "active")
          (write_state (next_state st tier s.clock) s.clock) s.states;
  })).1,
)

advance_or_exhaust-Tells :
    (st : EscalationState) (s : World)
    → any (claimable st.id st.current_tier "active") s.states ≡ true
    → Tells (advance_or_exhaust st) s
unfolding advance_or_exhaust get_tier_by_number go_on call try ◌>>=◌
advance_or_exhaust-Tells st s h =
    elim (Option-cases (find (same_tier st.policy_id (suc_ℤ st.current_tier)) s.tiers)) [
      | inl last ↦ rw last (exhaust-Tells st s h)
      | inr (tier, next) ↦ rw next (advance_to-Tells st tier s h)
    ]

-- Where the state that the workers read is still there and the first worker meets no failure, that
-- worker returns, and it and the workers after it, whatever fails for them, publish exactly one event.
pub workers_publish_exactly_once :
    (st : EscalationState) (rest : List (List Bool)) (s : World)
    → any (claimable st.id st.current_tier "active") s.states ≡ true
    → ((advance_or_exhaust st (record { state = s; faults = [] })).0 ≡ ok tt)
      × (length (workers st ([] ∷ rest) s).outbox ≡ suc (length s.outbox))
workers_publish_exactly_once st rest s h =
    let (returns, published) = advance_or_exhaust-Tells st s h in
    (
      returns,
      elim (advance_or_exhaust-Once st (calm s)) [
        | inl same ↦ absurd (grows published (ap (λ (w : World). length w.outbox) same))
        | inr (_, stale, _) ↦
            ap (λ (w : World). length w.outbox)
              (workers-stale st rest (advance_or_exhaust st (calm s)).1.state stale)
            ∙ published
      ],
    )
  where
    grows : {n m : ℕ} → n ≡ suc m → n ≡ m → ⊥
    grows p q = omega (arith, p, q)
