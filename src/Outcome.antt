-- ===== src/Outcome.antt =====
-- Exceptions as values, and methods as state passing. A method that raises hands back the state
-- that it had reached: only `transaction` (certmon/db.py) rolls back.
pub mod Rules
use certmon.Prelude.{Bool, true, false, Option, none, some, List, ℕ, String}

-- the exceptions that the modelled modules raise or catch
pub data Error : Type 0 where
  integrity_error concurrent_update authorization_error invalid_transition : Error
  auth_not_found csrf_error challenge_expired file_not_found file_exists : Error
  auth_error value_error key_error identifier_error staging_required : String → Error
  private_artifact runtime_error file_error key_lost : Error
  order_error : String → String → Option ℕ → Error
  validation_error : List String → Error

pub data Result (A : Type 0) : Type 0 where
  ok : A → Result A
  err : Error → Result A

abbrev pub Action : Type 0 → Type 0 → Type 0
Action S A = S → Result A × S

module _ {S A : Type 0} where
  abbrev pub pure : A → Action S A
  pure a s = (ok a, s)

  abbrev pub raise : Error → Action S A
  raise e s = (err e, s)

  abbrev pub lift : Result A → Action S A
  lift r s = (r, s)

  abbrev pub gets : (S → A) → Action S A
  gets f s = (ok (f s), s)

  abbrev pub or_raise : Option A → Error → Action S A
  or_raise none e s = (err e, s)
  or_raise (some a) e s = (ok a, s)

  -- `with self.transaction()`: commit, or roll back and raise again
  abbrev pub settle : S → Result A × S → Result A × S
  settle before (ok a, after) = (ok a, after)
  settle before (err e, after) = (err e, before)

  unfoldable pub transaction : Action S A → Action S A
  transaction m s = settle s (m s)

module _ {S A B : Type 0} where
  abbrev pub continue : (A → Action S B) → Result A × S → Result B × S
  continue f (ok a, s) = f a s
  continue f (err e, s) = (err e, s)

  infixl 5 ◌>>=◌ ◌>>◌
  abbrev pub ◌>>=◌ : Action S A → (A → Action S B) → Action S B
  ◌>>=◌ m f s = continue f (m s)

  abbrev pub ◌>>◌ : Action S A → Action S B → Action S B
  m >> k = m >>= λ _. k

module _ {S : Type 0} where
  abbrev pub modify : (S → S) → Action S Unit
  modify f s = (ok tt, f s)

  abbrev pub raise_if : Bool → Error → Action S Unit
  raise_if true e s = (err e, s)
  raise_if false e s = (ok tt, s)
