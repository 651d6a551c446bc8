-- ===== src/Effects/Cases.antt =====
-- The outcomes of a call, of a chain of actions and of a transaction.
use sreon_call.Prelude.{
  ◌≡◌, refl, ap, ◌⊎◌, inl, inr, Bool, true, false, List, [], ◌∷◌, Result, ok, err,
}
use sreon_call.Effects.{
  Err, failed, Env, Io, call, run_call, continue, commit_tx, end_tx, begin_tx, with_tx, ◌>>=◌,
}

module _ {S A : Type 0} where
  -- A call fails and does nothing, or it does what it says.
  abbrev pub CallCases : (S → Result Err A × S) → S → Result Err A × Env S → Type 0
  CallCases op s out =
      ((out.0 ≡ err failed) × (out.1.state ≡ s)) ⊎ ((out.0 ≡ (op s).0) × (out.1.state ≡ (op s).1))

  run_call-cases :
      (faults : List Bool) (op : S → Result Err A × S) (s : S)
      → CallCases op s (run_call faults op s)
  run_call-cases [] op s = inr (refl, refl)
  run_call-cases (true ∷ faults) op s = inl (refl, refl)
  run_call-cases (false ∷ faults) op s = inr (refl, refl)

  pub call-cases : (op : S → Result Err A × S) (e : Env S) → CallCases op e.state (call op e)
  unfolding call
  call-cases op e = run_call-cases e.faults op e.state

  -- A call that only reads changes nothing, whether it fails or not.
  pub call-read : (g : S → Result Err A) (e : Env S) → (call (λ s. (g s, s)) e).1.state ≡ e.state
  call-read g e = elim (call-cases (λ s. (g s, s)) e) [ inl h ↦ h.1 | inr h ↦ h.1 ]

  -- A transaction fails and changes nothing, or its body returned and what the body wrote stays.
  abbrev pub TxCases : Io S A → S → Result Err A × Env S → Type 0
  TxCases body s out =
      ((x : Err) × (out.0 ≡ err x) × (out.1.state ≡ s))
      ⊎ ((a : A) × (before : Env S) × (before.state ≡ s)
          × ((body before).0 ≡ ok a)
          × (out.0 ≡ ok a)
          × (out.1.state ≡ (body before).1.state))

  commit_tx-cases :
      (s : S) (a : A) (t : S) (faults : List Bool)
      → ((x : Err) × ((commit_tx s a t faults).0 ≡ err x) × ((commit_tx s a t faults).1.state ≡ s))
        ⊎ (((commit_tx s a t faults).0 ≡ ok a) × ((commit_tx s a t faults).1.state ≡ t))
  commit_tx-cases s a t [] = inr (refl, refl)
  commit_tx-cases s a t (true ∷ faults) = inl (failed, refl, refl)
  commit_tx-cases s a t (false ∷ faults) = inr (refl, refl)

  end_tx-cases :
      (body : Io S A) (s : S) (before : Env S)
      → before.state ≡ s
      → (r : Result Err A) → (body before).0 ≡ r
      → TxCases body s (end_tx s r (body before).1)
  end_tx-cases body s before h (err x) e = inl (x, refl, refl)
  end_tx-cases body s before h (ok a) e =
      elim (commit_tx-cases s a (body before).1.state (body before).1.faults) [
        | inl k ↦ inl k
        | inr (k, same) ↦ inr (a, before, h, e, k, same)
      ]

  begin_tx-cases :
      (body : Io S A) (s : S) (faults : List Bool) → TxCases body s (begin_tx body s faults)
  begin_tx-cases body s [] =
      end_tx-cases body s (record { state = s; faults = [] }) refl
        (body (record { state = s; faults = [] })).0 refl
  begin_tx-cases body s (true ∷ faults) = inl (failed, refl, refl)
  begin_tx-cases body s (false ∷ faults) =
      end_tx-cases body s (record { state = s; faults = faults }) refl
        (body (record { state = s; faults = faults })).0 refl

  pub with_tx-cases : (body : Io S A) (e : Env S) → TxCases body e.state (with_tx body e)
  unfolding with_tx
  with_tx-cases body e = begin_tx-cases body e.state e.faults

module _ {S A B : Type 0} where
  -- A chain goes on from the state that its first part left, or it ends with that part's error.
  pub bind_ok :
      (m : Io S A) (f : A → Io S B) (e : Env S) (a : A) → (m e).0 ≡ ok a → (m >>= f) e ≡ f a (m e).1
  unfolding ◌>>=◌
  bind_ok m f e a h = ap (λ r. continue r f (m e).1) h

  pub bind_err :
      (m : Io S A) (f : A → Io S B) (e : Env S) (x : Err)
      → (m e).0 ≡ err x
      → (m >>= f) e ≡ (err x, (m e).1)
  unfolding ◌>>=◌
  bind_err m f e x h = ap (λ r. continue r f (m e).1) h

  -- A chain that returned: both parts did.
  pub bind_returned :
      (m : Io S A) (f : A → Io S B) (e : Env S) (b : B)
      → ((m >>= f) e).0 ≡ ok b
      → (a : A) × ((m e).0 ≡ ok a) × ((f a (m e).1).0 ≡ ok b)
  unfolding ◌>>=◌
  bind_returned m f e b h = go (m e).0 refl h
    where
      go :
          (r : Result Err A)
          → (m e).0 ≡ r
          → (continue r f (m e).1).0 ≡ ok b
          → (a : A) × ((m e).0 ≡ ok a) × ((f a (m e).1).0 ≡ ok b)
      go (ok a) q k = (a, q, k)
      go (err x) q k = cc
