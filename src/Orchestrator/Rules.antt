-- ===== src/Orchestrator/Rules.antt =====
-- What every request to the orchestrator does to the database, from what its calls do.
use certmon.Prelude.{if◌then◌else◌, ℕ, String, Bool, true, false, Option, none, some, List}
use certmon.Outcome.{Error, Result, ok, err, Action, raise_if, lift, or_raise, ◌>>=◌, ◌>>◌}
use certmon.Outcome.Rules.{bind_rule}
use certmon.Permissions.{Permission}
use certmon.Models.{RenewalState}
use certmon.Db.{Setting, Certificate, Database, Query}
use certmon.Db.Jobs.{Updates}
use certmon.Artifacts.{Store}
use certmon.Renewals.{transition, cancel}
use certmon.Orchestrator.{World, Request, Services, on_database, on_store, on_error, handled}

-- the calls of the services keep a property of the database
pub record Kept (P : Database → Type 0) (s : Services) : Type 0 where
  pub register :
      (env email : Option String) (agreed : Bool) (db : Database)
      → P db
      → P (s.register env email agreed db).1
  pub create_order : (id csr : String) (db : Database) → P db → P (s.create_order id csr db).1
  pub answer_challenges : (id : String) (db : Database) → P db → P (s.answer_challenges id db).1
  pub poll_authorizations : (id : String) (db : Database) → P db → P (s.poll_authorizations id db).1
  pub finalize : (id : String) (db : Database) → P db → P (s.finalize id db).1

-- and so do the other writes of a request
pub record Writes (P : Database → Type 0) (current : Option (List Permission)) (now : ℕ)
    : Type 0 where
  pub move :
      (id : String) (from : RenewalState) (v : ℕ) (new : RenewalState) (us : Updates)
      (db : Database)
      → P db
      → P (transition current now id from v new us db).1
  pub abandon : (id : String) (db : Database) → P db → P (cancel current now id db).1
  pub settings :
      (m : List (String × Setting)) (db : Database) → P db → P (record db { settings = m })
  pub certificates :
      (cs : List Certificate) (db : Database) → P db → P (record db { certificates = cs })

module _ (P : Database → Type 0) where
  abbrev pub Keeps : {A : Type 0} → Request A → Type 0
  Keeps m = (w : World) → P w.database → P (m w).1.database

  pub keeps_check : (b : Bool) (e : Error) → Keeps (raise_if b e)
  keeps_check true e w h = h
  keeps_check false e w h = h

  module _ {A B : Type 0} where
    pub keeps_bind :
        (m : Request A) (f : A → Request B) → Keeps m → ((a : A) → Keeps (f a)) → Keeps (m >>= f)
    keeps_bind m f first next w h =
        bind_rule (λ w. P w.database) (m w) f (first w h) λ a _ k. next a (m w).1 k

    -- a call of the database with a known effect, and the rest
    pub keeps_call :
        (q : Query A) (f : A → Request B)
        → ((db : Database) → P db → P (q db).1)
        → ((a : A) → Keeps (f a))
        → Keeps (on_database q >>= f)
    keeps_call q f k next = keeps_bind (on_database q) f (λ w h. k w.database h) next

    pub keeps_or_raise :
        (o : Option A) (e : Error) (f : A → Request B)
        → ((a : A) → Keeps (f a))
        → Keeps (or_raise o e >>= f)
    keeps_or_raise none e f next w h = h
    keeps_or_raise (some a) e f next w h = next a w h

    pub keeps_lift :
        (r : Result A) (f : A → Request B) → ((a : A) → Keeps (f a)) → Keeps (lift r >>= f)
    keeps_lift (ok a) f next w h = next a w h
    keeps_lift (err e) f next w h = h

  module _ {A : Type 0} where
    -- one of two requests
    pub keeps_if : (b : Bool) (m n : Request A) → Keeps m → Keeps n → Keeps (if b then m else n)
    keeps_if true m n first other = first
    keeps_if false m n first other = other

    pub keeps_raise_if :
        (b : Bool) (e : Error) (f : Request A) → Keeps f → Keeps (raise_if b e >> f)
    keeps_raise_if true e f next w h = h
    keeps_raise_if false e f next w h = next w h

    pub keeps_query : (q : Query A) → ((db : Database) → P db → P (q db).1) → Keeps (on_database q)
    keeps_query q k w h = k w.database h

    pub keeps_store : (a : Action Store A) → Keeps (on_store a)
    keeps_store a w h = h

    keeps_handled :
        (m : Result A × World) (handle : Error → Request A)
        → P m.1.database
        → ((e : Error) → Keeps (handle e))
        → P (handled handle m).1.database
    keeps_handled (ok a, w) handle k next = k
    keeps_handled (err e, w) handle k next = next e w k

    pub keeps_on_error :
        (try : Request A) (handle : Error → Request A)
        → Keeps try
        → ((e : Error) → Keeps (handle e))
        → Keeps (on_error try handle)
    keeps_on_error try handle first next w h = keeps_handled (try w) handle (first w h) next
