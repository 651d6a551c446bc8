-- ===== src/Escalation/Claim/Guard.antt =====
-- `AdvanceEscalationState` and `ClaimState` of services/escalation/internal/store/store.go: a write
-- guarded by the tier and the status that were read.
use sreon_call.Prelude.{
  ◌≡◌, refl, sym, ap, ◌∙◌, ◌⊎◌, inl, inr, String, Bool, true, false, Option, Result, ok, err, any,
  update_where,
}
use sreon_call.Prelude.Int.{ℤ}
use sreon_call.Effects.{Err, conflict, Env, ◌>>◌}
use sreon_call.Effects.Cases.{call-cases, with_tx-cases, bind_ok, bind_returned}
use sreon_call.Escalation.Types.{EscalationState, EscalationHistory, World}
use sreon_call.Escalation.Policies.{affected}
use sreon_call.Escalation.States.{
  claimable, write_state, claim_row, claim_state, maybe_append, advance_escalation_state,
}
use sreon_call.Escalation.Claim.Quiet.{maybe_append-Quiet}

affected-ok : (b : Bool) (x : Err) (u : Unit {0}) → affected b x ≡ ok u → b ≡ true
affected-ok true x u h = refl
affected-ok false x u h = cc

-- A guarded UPDATE that returned has claimed a row.
claim_state-ok :
    (st : EscalationState) (tier : ℤ) (status : String) (e : Env World) (u : Unit {0})
    → (claim_state st tier status e).0 ≡ ok u
    → (any (claimable st.id tier status) e.state.states ≡ true)
      × ((claim_state st tier status e).1.state ≡ record (e.state) {
        states =
            update_where
              (claimable st.id tier status)
              (write_state st e.state.clock)
              e.state.states;
      })
unfolding claim_state
claim_state-ok st tier status e u h = elim (call-cases (claim_row st tier status) e) [
  | inl (x, _) ↦ cc
  | inr (r, s) ↦
      (affected-ok (any (claimable st.id tier status) e.state.states) conflict u (sym r ∙ h), s)
]

-- What a guarded write does: it fails and changes nothing, or the rows that it claims are written.
pub advance-cases :
    (st : EscalationState) (tier : ℤ) (status : String) (h : Option EscalationHistory)
    (e : Env World)
    → let out = advance_escalation_state st tier status h e in
      ((x : Err) × (out.0 ≡ err x) × (out.1.state ≡ e.state))
      ⊎ ((any (claimable st.id tier status) e.state.states ≡ true)
          × (out.0 ≡ ok tt)
          × (out.1.state.states
              ≡ update_where
                  (claimable st.id tier status)
                  (write_state st e.state.clock)
                  e.state.states)
          × (out.1.state.outbox ≡ e.state.outbox))
unfolding advance_escalation_state
advance-cases st tier status h e =
    elim (with_tx-cases (do claim_state st tier status; maybe_append h) e) [
      | inl fails ↦ inl fails
      | inr (a, before, same, done, out, after) ↦
          let (u, claimed, appended) =
            bind_returned (claim_state st tier status) (λ _. maybe_append h) before a done in
          let (hit, wrote) = claim_state-ok st tier status before u claimed in
          let quiet = (maybe_append-Quiet h).at (claim_state st tier status before).1 in
          let last =
            ap (λ (r : Result Err (Unit {0}) × Env World). r.1.state)
              (bind_ok (claim_state st tier status) (λ _. maybe_append h) before u claimed) in
          inr (
            ap (λ (s : World). any (claimable st.id tier status) s.states) (sym same) ∙ hit,
            out,
            ap (λ (s : World). s.states) (after ∙ last)
                ∙ quiet.0
                ∙ ap (λ (s : World). s.states) wrote
                ∙ ap
                    (λ (s : World).
                      update_where (claimable st.id tier status) (write_state st s.clock) s.states)
                    same,
            ap (λ (s : World). s.outbox) (after ∙ last)
                ∙ quiet.1
                ∙ ap (λ (s : World). s.outbox) wrote
                ∙ ap (λ (s : World). s.outbox) same,
          )
    ]
