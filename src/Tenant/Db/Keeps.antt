-- ===== src/Tenant/Db/Keeps.antt =====
-- Invariants of the tables under database actions, one rule for each way to build an action.
use saas_forge.Base.{if◌then◌else◌, ◌+◌, ℕ, Bool, true, false, Option, some, none, arith}
use saas_forge.Errors.{Err, Result, ok, err}
use saas_forge.Tenant.Tables.{Store}
use saas_forge.Tenant.Db.{
  continue, World, Db, ◌>>=◌, pure, lift, raise_if, or_raise, call, query, in_tx,
}

-- `m` keeps `P` of the tables, whether it returns or fails.
pub record Keeps (P : Store → Type 0) {A : Type 0} (m : Db A) : Type 0 where
  pub at : (w : World) → P w.store → P (m w).1.store

module _ {P : Store → Type 0} {A : Type 0} where
  pub Keeps-pure : (a : A) → Keeps P (pure a)
  Keeps-pure a = record { at = λ w h. h }

  pub Keeps-or_raise : (o : Option A) (e : Err) → Keeps P (or_raise o e)
  Keeps-or_raise none e = record { at = λ w h. h }
  Keeps-or_raise (some a) e = record { at = λ w h. h }

  pub Keeps-lift : (r : Result A) → Keeps P (lift r)
  Keeps-lift r = record { at = λ w h. h }

  pub Keeps-query : (fails : ℕ → Bool) (f : Store → A) → Keeps P (query fails f)
  Keeps-query fails f = record { at = λ w h. ground arith }

  pub Keeps-in_tx : (fails : ℕ → Bool) (m : Db A) → Keeps P m → Keeps P (in_tx fails m)
  unfolding in_tx
  Keeps-in_tx fails m k = record {
    at = λ w h. ground (arith, k.at (record w { calls = w.calls + 1 }) h);
  }

module _ {P : Store → Type 0} where
  pub Keeps-raise_if : (b : Bool) (e : Err) → Keeps P (raise_if b e)
  Keeps-raise_if b e = record { at = λ w h. h }

  pub Keeps-if :
      {A : Type 0} (m n : Db A) (b : Bool) → Keeps P m → Keeps P n → Keeps P (if b then m else n)
  Keeps-if m n true kept _ = kept
  Keeps-if m n false _ kept = kept

  pub Keeps-call : (fails : ℕ → Bool) → Keeps P (call fails)
  Keeps-call fails = record { at = λ w h. h }

module _ {P : Store → Type 0} {A B : Type 0} where
  Keeps-continue :
      (r : Result A) (f : A → Db B) → ((a : A) → Keeps P (f a)) → Keeps P (continue r f)
  Keeps-continue (ok a) f kf = kf a
  Keeps-continue (err e) f kf = record { at = λ w h. h }

  pub Keeps-bind :
      (m : Db A) (f : A → Db B) → ((a : A) → Keeps P (f a)) → Keeps P m → Keeps P (m >>= f)
  Keeps-bind m f rest first = record {
    at = λ w h. let (r, w') = m w in (Keeps-continue r f rest).at w' (first.at w h);
  }

pub ruleset keeps_rules =
    (Keeps-pure, Keeps-lift, Keeps-or_raise, Keeps-query, Keeps-raise_if, Keeps-call, Keeps-bind)
