-- ===== src/Effects/Http.antt =====
-- Answers to HTTP requests, as the `writeJSON` and `writeError` of each service's handlers give them.
pub mod Rules
use sreon_call.Prelude.{ℕ, String, Result, ok, err}
use sreon_call.Effects.{Err, not_found, Io, pure}

-- Nothing, the text of an error, or a value that is marshalled.
pub data Content (A : Type 0) : Type 0 where
  no_content : Content A
  text : String → Content A
  json : A → Content A

pub record Reply (A : Type 0) : Type 0 where
  pub code : ℕ
  pub body : Content A

module _ {S A : Type 0} where
  abbrev pub reply : ℕ → Content A → Io S (Reply A)
  reply code body = pure (record { code = code; body = body })

  abbrev pub write_error : ℕ → String → Io S (Reply A)
  write_error code message = reply code (text message)

  abbrev pub write_json : ℕ → A → Io S (Reply A)
  write_json code a = reply code (json a)

  abbrev pub no_body : Io S (Reply A)
  no_body = reply 204 no_content

  abbrev pub internal_error : Io S (Reply A)
  internal_error = write_error 500 "internal error"

  -- `if err != nil` with the answer 500.
  abbrev pub or_internal_error : {B : Type 0} → Result Err B → (B → Io S (Reply A)) → Io S (Reply A)
  or_internal_error (ok b) next = next b
  or_internal_error (err x) next = internal_error

  -- As above, with the answer 404 for `ErrNotFound`.
  abbrev pub or_missing :
      {B : Type 0} → String → Result Err B → (B → Io S (Reply A)) → Io S (Reply A)
  or_missing message (ok b) next = next b
  or_missing message (err not_found) next = write_error 404 message
  or_missing message (err x) next = internal_error
