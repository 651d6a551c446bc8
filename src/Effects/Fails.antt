-- ===== src/Effects/Fails.antt =====
-- Actions that fail on a state whatever happens, and change nothing.
use sreon_call.Prelude.{◌≡◌, ◌≢◌, refl, sym, ap, subst, ◌∙◌, inl, inr, Result, ok, err}
use sreon_call.Effects.{
  Err, dropped, failed, Env, Io, pure, raise, call, try, gets, continue, ◌>>=◌,
}
use sreon_call.Effects.Cases.{call-cases}

-- The action fails with an error that is not `ErrDrop`, and the state is as it was.
abbrev pub Fails : {S A : Type 0} → Io S A → S → Type 0
Fails {S} m s =
    (e : Env S) → e.state ≡ s → (x : Err) × (x ≢ dropped) × ((m e).0 ≡ err x) × ((m e).1.state ≡ s)

-- The action may fail, not with `ErrDrop`, and the state is as it was.
abbrev pub Reads : {S A : Type 0} → Io S A → S → Type 0
Reads {S} m s =
    (e : Env S) → e.state ≡ s → ((m e).1.state ≡ s) × ((x : Err) → (m e).0 ≡ err x → x ≢ dropped)

pub failed≢dropped : failed ≢ dropped
failed≢dropped h = cc

module _ {S A : Type 0} (s : S) where
  pub Reads-pure : (a : A) → Reads (pure a) s
  unfolding pure
  Reads-pure a e h = (h, λ x k. cc)

  pub Reads-gets : (f : S → A) → Reads (gets f) s
  unfolding gets
  Reads-gets f e h = (h, λ x k. cc)

  pub Reads-call :
      (g : S → Result Err A)
      → ((x : Err) → g s ≡ err x → x ≢ dropped)
      → Reads (call (λ s. (g s, s))) s
  Reads-call g known e h = elim (call-cases (λ t. (g t, t)) e) [
    | inl (r, same) ↦ (same ∙ h, λ x k d. cc)
    | inr (r, same) ↦ (same ∙ h, λ x k. known x (ap g (sym h) ∙ sym r ∙ k))
  ]

  pub Fails-raise : (x : Err) → x ≢ dropped → Fails (raise {A = A} x) s
  unfolding raise
  Fails-raise x h e k = (x, h, refl, k)

  pub Fails-call :
      (op : S → Result Err A × S) → (op s).0 ≡ err failed → (op s).1 ≡ s → Fails (call op) s
  Fails-call op fails same e h = elim (call-cases op e) [
    | inl (r, kept) ↦ (failed, failed≢dropped, r, kept ∙ h)
    | inr (r, kept) ↦ (
      failed,
      failed≢dropped,
      r ∙ ap (λ t. (op t).0) h ∙ fails,
      kept ∙ ap (λ t. (op t).1) h ∙ same,
    )
  ]

module _ {S A B : Type 0} (s : S) (m : Io S A) (f : A → Io S B) where
  pub Reads-bind : Reads m s → ((a : A) → Reads (f a) s) → Reads (m >>= f) s
  unfolding ◌>>=◌
  Reads-bind hm hf e h = go (m e).0 (m e).1 (hm e h).0 (hm e h).1
    where
      go :
          (r : Result Err A) (e' : Env S)
          → e'.state ≡ s
          → ((x : Err) → r ≡ err x → x ≢ dropped)
          → ((continue r f e').1.state ≡ s)
            × ((x : Err) → (continue r f e').0 ≡ err x → x ≢ dropped)
      go (ok a) e' k l = hf a e' k
      go (err x) e' k l = (k, λ y q. l y (cc))

  -- The first part fails, or it reads and the second part fails.
  pub Fails-bind : Reads m s → ((a : A) → Fails (f a) s) → Fails (m >>= f) s
  unfolding ◌>>=◌
  Fails-bind hm hf e h = go (m e).0 (m e).1 (hm e h).0 (hm e h).1
    where
      go :
          (r : Result Err A) (e' : Env S)
          → e'.state ≡ s
          → ((x : Err) → r ≡ err x → x ≢ dropped)
          → (x : Err) × (x ≢ dropped)
            × ((continue r f e').0 ≡ err x)
            × ((continue r f e').1.state ≡ s)
      go (ok a) e' k l = hf a e' k
      go (err x) e' k l = (x, l x refl, refl, k)

  -- A first part that fails.
  pub Fails-bind_left : Fails m s → Fails (m >>= f) s
  unfolding ◌>>=◌
  Fails-bind_left hm e h =
      let (x, d, r, k) = hm e h in
      (x, d, ap (λ y. (continue y f (m e).1).0) r, ap (λ y. (continue y f (m e).1).1.state) r ∙ k)

-- A read whose outcome is looked at: what follows fails on the answer and on a fault.
pub Fails-try :
    {S A B : Type 0} (s : S) (g : S → Result Err A) (f : Result Err A → Io S B) (r : Result Err A)
    → g s ≡ r
    → Fails (f r) s
    → Fails (f (err failed)) s
    → Fails (try (call (λ t. (g t, t))) >>= f) s
unfolding ◌>>=◌ try
Fails-try {A = A} s g f r known on_answer on_fault e same = elim (call-cases (λ t. (g t, t)) e) [
  | inl (q, kept) ↦ move (err failed) q (on_fault _ (kept ∙ same))
  | inr (q, kept) ↦ move r (q ∙ ap g same ∙ known) (on_answer _ (kept ∙ same))
]
  where
    Failed : Result Err A → Type 0
    Failed q =
        (x : Err) × (x ≢ dropped)
        × ((f q (call (λ t. (g t, t)) e).1).0 ≡ err x)
        × ((f q (call (λ t. (g t, t)) e).1).1.state ≡ s)

    move :
        (q : Result Err A)
        → (call (λ t. (g t, t)) e).0 ≡ q
        → Failed q
        → Failed (call (λ t. (g t, t)) e).0
    move q k p = subst Failed (sym k) p
