-- ===== src/Tenant/Db.antt =====
-- Database calls. Which of a run's calls the database fails is an argument, `fails`: the n-th call
-- fails if `fails n`. A transaction that returns an error, or whose commit fails, leaves the tables
-- as they were; row locks make transactions on the same rows run one after another.
pub mod Keeps
pub mod Reads
pub mod Atomic
use saas_forge.Base.{ℕ, ◌+◌, String, Bool, List, Option, some, none, if◌then◌else◌}
use saas_forge.Errors.{Err, Result, ok, err}
use saas_forge.Tenant.Tables.{Store}

pub record World : Type 0 where
  pub store : Store
  -- database calls made so far
  pub calls : ℕ
  -- the refresh tokens that `RevokeAllForUserInTenant` was asked to evict: user and tenant slug
  pub evictions : List (ℕ × String)

abbrev pub Db : Type 0 → Type 0
Db A = World → Result A × World

abbrev pub continue : {A B : Type 0} → Result A → (A → Db B) → Db B
continue (ok a) f w = f a w
continue (err e) f w = (err e, w)

infixl 5 ◌>>=◌ ◌>>◌
abbrev pub ◌>>=◌ : {A B : Type 0} → Db A → (A → Db B) → Db B
◌>>=◌ m f w = let (r, w') = m w in continue r f w'

abbrev pub ◌>>◌ : {A B : Type 0} → Db A → Db B → Db B
m >> k = m >>= λ _. k

abbrev pub pure : {A : Type 0} → A → Db A
pure a w = (ok a, w)

abbrev pub raise : {A : Type 0} → Err → Db A
raise e w = (err e, w)

abbrev pub lift : {A : Type 0} → Result A → Db A
lift r w = (r, w)

abbrev pub raise_if : Bool → Err → Db (Unit {0})
raise_if b e w = (if b then err e else ok tt, w)

abbrev pub or_raise : {A : Type 0} → Option A → Err → Db A
or_raise none e w = (err e, w)
or_raise (some a) e w = (ok a, w)

module _ (fails : ℕ → Bool) where
  -- one round trip
  abbrev pub call : Db (Unit {0})
  call w = (if fails w.calls then err Err.internal else ok tt, record w { calls = w.calls + 1 })

  abbrev pub query : {A : Type 0} → (Store → A) → Db A
  query f = call >> (λ w. (ok (f w.store), w))

  abbrev pub exec : (Store → Store) → Db (Unit {0})
  exec f = call >> (λ w. (ok tt, record w { store = f w.store }))

  abbrev settle : {A : Type 0} → Store → Result A → Db A
  settle before (err e) w = (err e, record w { store = before })
  settle before (ok a) w =
      if fails w.calls
      then (err Err.internal, record w { store = before; calls = w.calls + 1 })
      else (ok a, record w { calls = w.calls + 1 })

  -- `Begin`, the body, then `Commit`, or the deferred `Rollback`
  unfoldable pub in_tx : {A : Type 0} → Db A → Db A
  in_tx m = call >> (λ w. let (r, w') = m w in settle w.store r w')
