-- ===== src/Orchestrator/Returns.antt =====
-- A property of what a request returns, from the parts that it is made of.
use certmon.Prelude.{Bool, true, false, ◌≡◌, refl}
use certmon.Outcome.{Error, Result, ok, err, continue, raise_if, lift, ◌>>=◌, ◌>>◌}
use certmon.Orchestrator.{World, Request}

module _ {A : Type 0} (Q : A → Type 0) where
  -- whatever the request returns has the property
  abbrev pub ReturnsAt : World → Request A → Type 0
  ReturnsAt w m = (a : A) → (m w).0 ≡ ok a → Q a

  abbrev pub Returns : Request A → Type 0
  Returns m = (w : World) → ReturnsAt w m

  module _ {B : Type 0} where
    continued :
        (m : Result B × World) (f : B → Request A)
        → ((b : B) → m.0 ≡ ok b → ReturnsAt m.1 (f b))
        → (a : A) → (continue f m).0 ≡ ok a
        → Q a
    continued (ok b, w) f next a e = next b refl a e
    continued (err x, w) f next a e = absurd cc

    pub ensures_bind :
        (m : Request B) (f : B → Request A) → ((b : B) → Returns (f b)) → Returns (m >>= f)
    ensures_bind m f next w = continued (m w) f λ b _. next b (m w).1

    pub ensures_lift :
        (w : World) (r : Result B) (f : B → Request A)
        → ((b : B) → r ≡ ok b → ReturnsAt w (f b))
        → ReturnsAt w (lift r >>= f)
    ensures_lift w r f next = continued (r, w) f next

  pub ensures_raise_if :
      (w : World) (b : Bool) (e : Error) (f : Request A)
      → ReturnsAt w f
      → ReturnsAt w (raise_if b e >> f)
  ensures_raise_if w true e f next a h = absurd cc
  ensures_raise_if w false e f next a h = next a h
