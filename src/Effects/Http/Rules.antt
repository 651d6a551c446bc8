-- ===== src/Effects/Http/Rules.antt =====
-- What a handler does to the state, by the parts that it is made of.
use sreon_call.Prelude.{ℕ, String, Result, ok, err}
use sreon_call.Effects.{Err, not_found, conflict, failed, cancelled, dropped, Io}
use sreon_call.Effects.Evolves.{Evolves, Preorder, Evolves-pure}
use sreon_call.Effects.Http.{Content, Reply, reply, or_internal_error, or_missing}

module _ {S A : Type 0} {R : S → S → Type 0} (o : Preorder R) where
  pub Evolves-reply : (code : ℕ) (body : Content A) → Evolves R (reply {S = S} code body)
  Evolves-reply code body = Evolves-pure o _

  pub Evolves-or_internal_error :
      {B : Type 0} (r : Result Err B) (next : B → Io S (Reply A))
      → ((b : B) → Evolves R (next b))
      → Evolves R (or_internal_error r next)
  Evolves-or_internal_error (ok b) next h = h b
  Evolves-or_internal_error (err x) next h = Evolves-pure o _

  pub Evolves-or_missing_error :
      {B : Type 0} (message : String) (x : Err) (next : B → Io S (Reply A))
      → Evolves R (or_missing message (err x) next)
  Evolves-or_missing_error message not_found next = Evolves-pure o _
  Evolves-or_missing_error message conflict next = Evolves-pure o _
  Evolves-or_missing_error message failed next = Evolves-pure o _
  Evolves-or_missing_error message dropped next = Evolves-pure o _
  Evolves-or_missing_error message cancelled next = Evolves-pure o _

  pub Evolves-or_missing :
      {B : Type 0} (message : String) (r : Result Err B) (next : B → Io S (Reply A))
      → ((b : B) → Evolves R (next b))
      → Evolves R (or_missing message r next)
  Evolves-or_missing message (ok b) next h = h b
  Evolves-or_missing message (err x) next h = Evolves-or_missing_error message x next

pub ruleset http_rules = (Evolves-reply, Evolves-or_internal_error, Evolves-or_missing)
