-- ===== src/Tenant/Db/Atomic.antt =====
-- Actions that fail without a trace: an error leaves the tables as they were.
use saas_forge.Base.{ℕ, ◌≡◌, ◌≢◌, refl, ◌∙◌, Bool, arith}
use saas_forge.Errors.{Err, Result, ok, err}
use saas_forge.Tenant.Db.{World, Db, ◌>>=◌, pure, in_tx, continue}
use saas_forge.Tenant.Db.Reads.{Reads}

pub record Atomic {A : Type 0} (m : Db A) : Type 0 where
  pub undone : (w : World) (e : Err) → (m w).0 ≡ err e → (m w).1.store ≡ w.store

-- `m` cannot fail.
pub record Succeeds {A : Type 0} (m : Db A) : Type 0 where
  pub returns : (w : World) (e : Err) → (m w).0 ≢ err e

module _ {A B : Type 0} where
  continue-undone :
      (r : Result A) (f : A → Db B) (w : World) (e : Err)
      → ((a : A) → Atomic (f a))
      → (continue r f w).0 ≡ err e
      → (continue r f w).1.store ≡ w.store
  continue-undone (ok a) f w e kf h = (kf a).undone w e h
  continue-undone (err x) f w e kf h = refl

  -- Reading, and then something atomic.
  pub Atomic-bind :
      (m : Db A) (f : A → Db B) → Reads m → ((a : A) → Atomic (f a)) → Atomic (m >>= f)
  Atomic-bind m f km kf = record {
    undone = λ w e h. continue-undone (m w).0 f (m w).1 e kf h ∙ km.same w;
  }

  continue-failed :
      (r : Result A) (f : A → Db B) (w : World) (e : Err)
      → ((a : A) → Succeeds (f a))
      → (continue r f w).0 ≡ err e
      → (r ≡ err e) × ((continue r f w).1 ≡ w)
  continue-failed (ok a) f w e kf h = absurd ((kf a).returns w e h)
  continue-failed (err x) f w e kf h = (cc, refl)

  -- Something atomic, and then what cannot fail.
  pub Atomic-then :
      (m : Db A) (f : A → Db B) → Atomic m → ((a : A) → Succeeds (f a)) → Atomic (m >>= f)
  Atomic-then m f km kf = record {
    undone = λ w e h.
        let (failed, same) = continue-failed (m w).0 f (m w).1 e kf h in
        rw same (km.undone w e failed);
  }

pub Succeeds-pure : {A : Type 0} (a : A) → Succeeds (pure a)
Succeeds-pure a = record { returns = λ w e h. cc }

pub Atomic-in_tx : {A : Type 0} (fails : ℕ → Bool) (m : Db A) → Atomic (in_tx fails m)
unfolding in_tx
Atomic-in_tx fails m = record { undone = λ w e h. ground arith }
