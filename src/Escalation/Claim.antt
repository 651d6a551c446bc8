-- ===== src/Escalation/Claim.antt =====
-- The guarded write of `AdvanceOrExhaust` (services/escalation/internal/escalator/escalator.go and
-- services/escalation/internal/store/store.go): several workers that read the same state publish once.
pub mod Quiet
pub mod Guard
pub mod Outcome
use sreon_call.Prelude.{
  suc, ◌≤◌, ◌≡◌, refl, sym, ap, ◌∙◌, inl, inr, List, [], ◌∷◌, Bool, arith, subst, length,
}
use sreon_call.Effects.{Env}
use sreon_call.Escalation.Types.{EscalationState, World}
use sreon_call.Escalation.Escalator.{advance_or_exhaust}
use sreon_call.Escalation.Claim.Outcome.{IsStale, advance_or_exhaust-Once}

-- Workers that all read the same state, each with its own pattern of failures, one after the other.
abbrev pub workers : EscalationState → List (List Bool) → World → World
workers st [] s = s
workers st (faults ∷ rest) s =
    workers st rest (advance_or_exhaust st (record { state = s; faults = faults })).1.state

-- A worker whose state is gone changes nothing.
pub advance_or_exhaust-stale :
    (st : EscalationState) (e : Env World)
    → IsStale st e.state
    → (advance_or_exhaust st e).1.state ≡ e.state
advance_or_exhaust-stale st e stale = elim (advance_or_exhaust-Once st e) [
  | inl same ↦ same
  | inr (claimed, _, _) ↦ absurd (claimed stale)
]

pub workers-stale :
    (st : EscalationState) (ws : List (List Bool)) (s : World) → IsStale st s → workers st ws s ≡ s
workers-stale st [] s stale = refl
workers-stale st (faults ∷ rest) s stale =
    let same = advance_or_exhaust-stale st (record { state = s; faults = faults }) stale in
    ap (workers st rest) same ∙ workers-stale st rest s stale

-- However many workers read the same escalation state, and whatever fails for each, they publish one
-- event at most.
pub workers_publish_once :
    (st : EscalationState) (ws : List (List Bool)) (s : World)
    → length (workers st ws s).outbox ≤ suc (length s.outbox)
workers_publish_once st [] s = omega arith
workers_publish_once st (faults ∷ rest) s =
    elim (advance_or_exhaust-Once st (record { state = s; faults = faults })) [
      | inl same ↦
          subst (λ t. length (workers st rest t).outbox ≤ suc (length s.outbox)) (sym same)
            (workers_publish_once st rest s)
      | inr (_, stale, once) ↦
          subst (λ t. length t.outbox ≤ suc (length s.outbox))
            (sym (
              workers-stale st rest
                (advance_or_exhaust st (record { state = s; faults = faults })).1.state stale))
            once
    ]
