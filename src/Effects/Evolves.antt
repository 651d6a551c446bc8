-- ===== src/Effects/Evolves.antt =====
-- What every run of an action does to the state, whatever fails: a relation between the state before
-- and the state after, reflexive and transitive, with one rule for each way to build an action.
use sreon_call.Prelude.{
  ◌≡◌, refl, ◌⊎◌, inl, inr, Bool, true, false, List, [], ◌∷◌, Result, ok, err, if◌then◌else◌,
  Option, none, some,
}
use sreon_call.Effects.{
  Err, failed, Env, Io, continue, end_tx, begin_tx, commit_tx, pure, raise, call, try, gets,
  with_tx, ◌>>=◌,
}

pub record Evolves {S A : Type 0} (R : S → S → Type 0) (m : Io S A) : Type 0 where
  pub at : (e : Env S) → R e.state (m e).1.state

pub record Preorder {S : Type 0} (R : S → S → Type 0) : Type 0 where
  pub same : (s : S) → R s s
  pub chain : (s t u : S) → R s t → R t u → R s u

module _ {S : Type 0} {R : S → S → Type 0} (o : Preorder R) where
  pub Evolves-pure : {A : Type 0} (a : A) → Evolves R (pure a)
  unfolding pure
  Evolves-pure a = record { at = λ e. o.same e.state }

  pub Evolves-raise : {A : Type 0} (x : Err) → Evolves R (raise {A = A} x)
  unfolding raise
  Evolves-raise x = record { at = λ e. o.same e.state }

  pub Evolves-gets : {A : Type 0} (f : S → A) → Evolves R (gets f)
  unfolding gets
  Evolves-gets f = record { at = λ e. o.same e.state }

  pub Evolves-try : {A : Type 0} (m : Io S A) → Evolves R m → Evolves R (try m)
  unfolding try
  Evolves-try m h = record { at = λ e. h.at e }

  pub Evolves-call :
      {A : Type 0} (op : S → Result Err A × S) → ((s : S) → R s (op s).1) → Evolves R (call op)
  unfolding call
  Evolves-call op h = record { at = λ e. go e.faults e.state }
    where
      go :
          (faults : List Bool) (s : S)
          → R s (call op (record { state = s; faults = faults })).1.state
      go [] s = h s
      go (true ∷ faults) s = o.same s
      go (false ∷ faults) s = h s

  pub Evolves-bind :
      {A B : Type 0} (m : Io S A) (f : A → Io S B)
      → Evolves R m
      → ((a : A) → Evolves R (f a))
      → Evolves R (m >>= f)
  unfolding ◌>>=◌
  Evolves-bind {A} m f hm hf = record {
    at = λ e.
        let (r, e') = m e in
        o.chain e.state e'.state (continue r f e').1.state (hm.at e) (after r e');
  }
    where
      after : (r : Result Err A) (e : Env S) → R e.state (continue r f e).1.state
      after (ok a) e = (hf a).at e
      after (err x) e = o.same e.state

  pub Evolves-if :
      {A : Type 0} (b : Bool) (m n : Io S A)
      → Evolves R m
      → Evolves R n
      → Evolves R (if b then m else n)
  Evolves-if true m n hm hn = hm
  Evolves-if false m n hm hn = hn

  -- The same, where each branch may go by its test.
  pub Evolves-if_known :
      {A : Type 0} (b : Bool) (m n : Io S A)
      → (b ≡ true → Evolves R m)
      → (b ≡ false → Evolves R n)
      → Evolves R (if b then m else n)
  Evolves-if_known true m n hm hn = hm refl
  Evolves-if_known false m n hm hn = hn refl

  pub Evolves-with_tx : {A : Type 0} (m : Io S A) → Evolves R m → Evolves R (with_tx m)
  unfolding with_tx
  Evolves-with_tx {A} m h = record { at = λ e. begun e.state e.faults }
    where
      committed :
          (s t : S) (a : A) (faults : List Bool) → R s t → R s (commit_tx s a t faults).1.state
      committed s t a [] k = k
      committed s t a (true ∷ faults) k = o.same s
      committed s t a (false ∷ faults) k = k

      ended : (s : S) (r : Result Err A) (e : Env S) → R s e.state → R s (end_tx s r e).1.state
      ended s (ok a) e k = committed s e.state a e.faults k
      ended s (err x) e k = o.same s

      begun : (s : S) (faults : List Bool) → R s (begin_tx m s faults).1.state
      begun s [] =
          let (r, e) = m (record { state = s; faults = [] }) in
          ended s r e (h.at (record { state = s; faults = [] }))
      begun s (true ∷ faults) = o.same s
      begun s (false ∷ faults) =
          let (r, e) = m (record { state = s; faults = faults }) in
          ended s r e (h.at (record { state = s; faults = faults }))

  -- One run of a call, where what it does is related to the state before it.
  pub call_at :
      {A : Type 0} (op : S → Result Err A × S) (e : Env S)
      → R e.state (op e.state).1
      → R e.state (call op e).1.state
  unfolding call
  call_at {A} op e h = go e.faults e.state h
    where
      go :
          (faults : List Bool) (s : S)
          → R s (op s).1
          → R s (call op (record { state = s; faults = faults })).1.state
      go [] s k = k
      go (true ∷ faults) s k = o.same s
      go (false ∷ faults) s k = k

  -- One run of a chain whose first part is known at the state before it.
  pub bind_at :
      {A B : Type 0} (m : Io S A) (f : A → Io S B) (e : Env S)
      → R e.state (m e).1.state
      → ((a : A) → Evolves R (f a))
      → R e.state ((m >>= f) e).1.state
  unfolding ◌>>=◌
  bind_at {A} m f e hm hf =
      let (r, e') = m e in o.chain e.state e'.state (continue r f e').1.state hm (after r e')
    where
      after : (r : Result Err A) (e : Env S) → R e.state (continue r f e).1.state
      after (ok a) e = (hf a).at e
      after (err x) e = o.same e.state

  -- A body that goes by what a call read, and may use that it was read from the state.
  pub Evolves-read :
      {A B : Type 0} (g : S → Result Err B) (f : Result Err B → Io S A)
      → ((e : Env S) (r : Result Err B)
          → (r ≡ err failed) ⊎ (r ≡ g e.state)
          → R e.state (f r e).1.state)
      → Evolves R (try (call (λ s. (g s, s))) >>= f)
  unfolding try call ◌>>=◌
  Evolves-read {A} {B} g f h = record { at = λ e. go e.faults e.state }
    where
      go :
          (faults : List Bool) (s : S)
          → R s ((try (call (λ s. (g s, s))) >>= f) (record { state = s; faults = faults })).1.state
      go [] s = h (record { state = s; faults = [] }) (g s) (inr refl)
      go (true ∷ faults) s = h (record { state = s; faults = faults }) (err failed) (inl refl)
      go (false ∷ faults) s = h (record { state = s; faults = faults }) (g s) (inr refl)

  -- The same without `try`, where the call reads a value.
  pub Evolves-read_value :
      {A B : Type 0} (g : S → B) (f : B → Io S A)
      → ((e : Env S) → R e.state (f (g e.state) e).1.state)
      → Evolves R (call (λ s. (ok (g s), s)) >>= f)
  unfolding call ◌>>=◌
  Evolves-read_value {A} {B} g f h = record { at = λ e. go e.faults e.state }
    where
      go :
          (faults : List Bool) (s : S)
          → R s ((call (λ s. (ok (g s), s)) >>= f) (record { state = s; faults = faults })).1.state
      go [] s = h (record { state = s; faults = [] })
      go (true ∷ faults) s = o.same s
      go (false ∷ faults) s = h (record { state = s; faults = faults })

  -- A body that goes by the outcome of another action, or by a row that may be there.
  pub Evolves-result :
      {A B : Type 0} (r : Result Err A) (f : A → Io S B) (g : Err → Io S B)
      → ((a : A) → Evolves R (f a))
      → ((x : Err) → Evolves R (g x))
      → Evolves R (elim r [ ok a ↦ f a | err x ↦ g x ])
  Evolves-result (ok a) f g hf hg = hf a
  Evolves-result (err x) f g hf hg = hg x

  pub Evolves-option :
      {A B : Type 0} (r : Option A) (f : A → Io S B) (g : Io S B)
      → ((a : A) → Evolves R (f a))
      → Evolves R g
      → Evolves R (elim r [ some a ↦ f a | none ↦ g ])
  Evolves-option (some a) f g hf hg = hf a
  Evolves-option none f g hf hg = hg

pub ruleset evolves_rules = (
  Evolves-pure, Evolves-raise, Evolves-gets, Evolves-try, Evolves-bind, Evolves-if, Evolves-with_tx,
  Evolves-result, Evolves-option,
)
