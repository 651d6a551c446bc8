-- ===== src/Effects.antt =====
-- How the services reach their databases, brokers and peers. A call of such a system may fail, so
-- what a handler meets is a list of outcomes, one for each call: `true` is a call that fails and does
-- nothing. When the list is used up every call succeeds. A theorem that ranges over the list ranges
-- over every pattern of failures. Errors are told apart as far as `errors.Is` does
-- (pkg/errs/errs.go, `ErrDrop` of pkg/amqp/consume.go, and `ctx.Err()` of a wait that is cancelled);
-- `failed` is every other error.
pub mod Evolves
pub mod Cases
pub mod Fails
pub mod Http
use sreon_call.Prelude.{Bool, true, false, List, [], ◌∷◌, Result, ok, err}

pub data Err : Type 0 where
  not_found conflict failed dropped cancelled : Err

pub record Env (S : Type 0) : Type 0 where
  pub state : S
  pub faults : List Bool

-- No call fails.
abbrev pub calm : {S : Type 0} → S → Env S
calm s = record { state = s; faults = [] }

-- An action on the state `S`: it returns or it fails, and what it wrote stays written.
abbrev pub Io : Type 0 → Type 0 → Type 0
Io S A = Env S → Result Err A × Env S

module _ {S A : Type 0} where
  unfoldable pub pure : A → Io S A
  pure a e = (ok a, e)

  unfoldable pub raise : Err → Io S A
  raise x e = (err x, e)

  -- The state as a call that succeeds leaves it, with the outcomes that are left.
  abbrev pub run_call : List Bool → (S → Result Err A × S) → S → Result Err A × Env S
  run_call [] op s = let (r, t) = op s in (r, record { state = t; faults = [] })
  run_call (true ∷ faults) op s = (err failed, record { state = s; faults = faults })
  run_call (false ∷ faults) op s = let (r, t) = op s in (r, record { state = t; faults = faults })

  -- One call of another system.
  unfoldable pub call : (S → Result Err A × S) → Io S A
  call op e = run_call e.faults op e.state

  -- The outcome of an action as a value: `if err != nil` without a return.
  unfoldable pub try : Io S A → Io S (Result Err A)
  try m e = let (r, e') = m e in (ok r, e')

  -- What the state holds, with no call.
  unfoldable pub gets : (S → A) → Io S A
  gets f e = (ok (f e.state), e)

module _ {S A B : Type 0} where
  abbrev pub continue : Result Err A → (A → Io S B) → Env S → Result Err B × Env S
  continue (ok a) f e = f a e
  continue (err x) f e = (err x, e)

  infixl 5 ◌>>=◌ ◌>>◌
  unfoldable pub ◌>>=◌ : Io S A → (A → Io S B) → Io S B
  ◌>>=◌ m f e = let (r, e') = m e in continue r f e'

  abbrev pub ◌>>◌ : Io S A → Io S B → Io S B
  m >> n = m >>= λ _. n

-- A database transaction: its beginning and its commit are calls; an error of the body or of the
-- commit leaves the tables as they were. The body writes to tables alone.
module _ {S A : Type 0} where
  abbrev pub commit_tx : S → A → S → List Bool → Result Err A × Env S
  commit_tx before a after [] = (ok a, record { state = after; faults = [] })
  commit_tx before a after (true ∷ faults) =
      (err failed, record { state = before; faults = faults })
  commit_tx before a after (false ∷ faults) = (ok a, record { state = after; faults = faults })

  abbrev pub end_tx : S → Result Err A → Env S → Result Err A × Env S
  end_tx before (err x) e = (err x, record { state = before; faults = e.faults })
  end_tx before (ok a) e = commit_tx before a e.state e.faults

  abbrev pub begin_tx : Io S A → S → List Bool → Result Err A × Env S
  begin_tx body s [] = let (r, e) = body (record { state = s; faults = [] }) in end_tx s r e
  begin_tx body s (true ∷ faults) = (err failed, record { state = s; faults = faults })
  begin_tx body s (false ∷ faults) =
      let (r, e) = body (record { state = s; faults = faults }) in end_tx s r e

  unfoldable pub with_tx : Io S A → Io S A
  with_tx body e = begin_tx body e.state e.faults
