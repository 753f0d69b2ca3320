-- ===== src/Outcome/Rules.antt =====
-- A property of the state that a method leaves, whether it returns or raises: one rule for each way
-- to build a method.
use certmon.Prelude.{Bool, true, false, ◌≡◌, refl, Option, none, some}
use certmon.Outcome.{
  Error, Result, Action, ok, err, raise_if, lift, or_raise, continue, settle, ◌>>=◌, ◌>>◌,
}

pub returned : {A : Type 0} (r a : A) → ok r ≡ ok a → r ≡ a
returned r a e = cc

module _ {S A B : Type 0} (P : S → Type 0) where
  pub lift_rule :
      (s : S) (r : Result A) (f : A → Action S B)
      → P s
      → ((a : A) → r ≡ ok a → P (f a s).1)
      → P ((lift r >>= f) s).1
  lift_rule s (ok a) f same next = next a refl
  lift_rule s (err e) f same next = same

  pub or_raise_rule :
      (s : S) (o : Option A) (e : Error) (f : A → Action S B)
      → P s
      → ((a : A) → o ≡ some a → P (f a s).1)
      → P ((or_raise o e >>= f) s).1
  or_raise_rule s (some a) e f same next = next a refl
  or_raise_rule s none e f same next = same

  -- a method, and then a part that writes nothing
  pub reads_rule :
      (m : Result A × S) (f : A → Action S B)
      → P m.1
      → ((a : A) (s : S) → (f a s).1 ≡ s)
      → P (continue f m).1
  reads_rule (ok a, s) f k reads = rw reads k
  reads_rule (err e, s) f k reads = k

  -- a method that keeps the property, and then another part
  pub bind_rule :
      (m : Result A × S) (f : A → Action S B)
      → P m.1
      → ((a : A) → m.0 ≡ ok a → P m.1 → P (f a m.1).1)
      → P (continue f m).1
  bind_rule (ok a, s) f k next = next a refl k
  bind_rule (err e, s) f k next = k

module _ {S B : Type 0} (P : S → Type 0) where
  pub raise_if_rule :
      (s : S) (b : Bool) (e : Error) (f : Action S B)
      → P s
      → (b ≡ false → P (f s).1)
      → P ((raise_if b e >> f) s).1
  raise_if_rule s true e f same next = same
  raise_if_rule s false e f same next = next refl

  pub settle_rule :
      (before : S) (m : Result B × S)
      → P before
      → ((b : B) → m.0 ≡ ok b → P m.1)
      → P (settle before m).1
  settle_rule before (ok b, s) same next = next b refl
  settle_rule before (err e, s) same next = same

-- What a method that returns has passed.
module _ {S A B : Type 0} where
  pub continue-ok :
      (m : Result A × S) (f : A → Action S B) (b : B)
      → (continue f m).0 ≡ ok b
      → (a : A) × ((m.0 ≡ ok a) × ((f a m.1).0 ≡ ok b))
  continue-ok (ok a, s) f b e = (a, (refl, e))
  continue-ok (err x, s) f b e = absurd cc

module _ {S : Type 0} where
  pub raise_if-ok :
      (b : Bool) (x : Error) (s : S) (u : Unit {0}) → (raise_if b x s).0 ≡ ok u → b ≡ false
  raise_if-ok true x s u e = absurd cc
  raise_if-ok false x s u e = refl

  -- the part after a check that has passed
  pub raise_if-next :
      {B : Type 0} (b : Bool) (x : Error) (f : Action S B) (s : S) (a : B)
      → ((raise_if b x >> f) s).0 ≡ ok a
      → (f s).0 ≡ ok a
  raise_if-next true x f s a e = absurd cc
  raise_if-next false x f s a e = e
