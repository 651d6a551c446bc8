-- ===== src/Escalation/Claim/Quiet.antt =====
-- The parts of a worker that write no escalation state and publish little or nothing
-- (services/escalation/internal/escalator/escalator.go).
use sreon_call.Prelude.{
  suc, ◌≤◌, ◌≡◌, refl, ap, ◌∙◌, inl, inr, String, [], ◌∷◌, Option, none, some, arith, Result, ok,
  err, length, length-append,
}
use sreon_call.Effects.{continue, Err, Env, Io, pure, try, ◌>>=◌, ◌>>◌}
use sreon_call.Effects.Evolves.{Evolves, Preorder, Evolves-call, Evolves-try, evolves_rules}
use sreon_call.Effects.Cases.{call-cases}
use sreon_call.Escalation.Types.{PolicyTier, EscalationState, EscalationHistory, Event, World}
use sreon_call.Escalation.States.{append_history, maybe_append}
use sreon_call.Escalation.Escalator.{
  entry, publish, publish_event, get_on_call, resolve_on_call, trigger_tier,
}

-- The states and the published events are as they were.
abbrev pub Quiet : World → World → Type 0
Quiet s t = (t.states ≡ s.states) × (t.outbox ≡ s.outbox)

Quiet-Preorder : Preorder Quiet
Quiet-Preorder = record { same = λ s. (refl, refl); chain = λ s t u a b. (b.0 ∙ a.0, b.1 ∙ a.1) }

append_history-Quiet : (h : EscalationHistory) → Evolves Quiet (append_history h)
unfolding append_history
append_history-Quiet h = Evolves-call Quiet-Preorder _ (λ s. (refl, refl))

pub maybe_append-Quiet : (h : Option EscalationHistory) → Evolves Quiet (maybe_append h)
maybe_append-Quiet none = search (evolves_rules, Quiet-Preorder)
maybe_append-Quiet (some h) = append_history-Quiet h

get_on_call-Quiet : (a b : String) → Evolves Quiet (get_on_call a b)
unfolding get_on_call
get_on_call-Quiet a b = Evolves-call Quiet-Preorder _ (λ s. (refl, refl))

resolve_on_call-Quiet :
    (st : EscalationState) (tier : PolicyTier) → Evolves Quiet (resolve_on_call st tier)
unfolding resolve_on_call
resolve_on_call-Quiet st tier = search (evolves_rules, Quiet-Preorder, get_on_call-Quiet)

-- The states are as they were and one event at most is published.
abbrev pub Loud : World → World → Type 0
Loud s t = (t.states ≡ s.states) × (length t.outbox ≤ suc (length s.outbox))

Loud-of_Quiet : (s t : World) → Quiet s t → Loud s t
Loud-of_Quiet s t q = (q.0, omega (arith, ap length q.1))

Loud-after_Quiet : (s t u : World) → Quiet s t → Loud t u → Loud s u
Loud-after_Quiet s t u q l = (l.0 ∙ q.0, omega (arith, ap length q.1, l.1))

pub publish-Loud : (ev : Event) → Evolves Loud (publish ev)
unfolding publish
publish-Loud ev = record {
  at = λ e. elim (call-cases (publish_event ev) e) [
    | inl (_, s) ↦
        Loud-of_Quiet e.state (publish ev e).1.state
          (ap (λ (w : World). w.states) s, ap (λ (w : World). w.outbox) s)
    | inr (_, s) ↦ (
      ap (λ (w : World). w.states) s,
      omega (arith, ap (λ (w : World). length w.outbox) s, length-append e.state.outbox (ev ∷ [])),
    )
  ];
}

module _ {A B : Type 0} (m : Io World A) (f : A → Io World B) where
  -- A quiet action and then one that may publish.
  Loud-bind : Evolves Quiet m → ((a : A) → Evolves Loud (f a)) → Evolves Loud (m >>= f)
  unfolding ◌>>=◌
  Loud-bind q l = record {
    at = λ e.
        Loud-after_Quiet e.state (m e).1.state ((m >>= f) e).1.state (q.at e) (go (m e).0 (m e).1);
  }
    where
      go : (r : Result Err A) (e : Env World) → Loud e.state (continue r f e).1.state
      go (ok a) e = (l a).at e
      go (err x) e = (refl, omega arith)

pub trigger_tier-Loud :
    (st : EscalationState) (tier : PolicyTier) → Evolves Loud (trigger_tier st tier)
unfolding trigger_tier
trigger_tier-Loud st tier =
    Loud-bind (resolve_on_call st tier) _ (resolve_on_call-Quiet st tier) λ who.
      Loud-bind (try (append_history (entry st "triggered" tier.tier_number who))) _
        (Evolves-try Quiet-Preorder _ (append_history-Quiet _)) λ _. publish-Loud _

-- An action whose outcome is logged and dropped.
pub logged-Loud : (m : Io World (Unit {0})) → Evolves Loud m → Evolves Loud (try m >> pure tt)
unfolding ◌>>=◌ try pure
logged-Loud m h = record { at = λ e. h.at e }
