-- ===== src/Tenant/Db/Reads.antt =====
-- Actions that change no table, one rule for each way to build one; and actions that leave the
-- tables alike.
use saas_forge.Base.{sym, if◌then◌else◌, ℕ, ◌≡◌, refl, ◌∙◌, Bool, true, false, Option, arith}
use saas_forge.Errors.{Err, Result, ok, err}
use saas_forge.Tenant.Tables.{Store}
use saas_forge.Tenant.Db.{World, Db, pure, lift, raise_if, or_raise, query, ◌>>=◌, continue}

-- `m` only reads.
pub record Reads {A : Type 0} (m : Db A) : Type 0 where
  pub same : (w : World) → (m w).1.store ≡ w.store

module _ {A : Type 0} where
  pub Reads-lift : (r : Result A) → Reads (lift r)
  Reads-lift r = record { same = λ w. refl }

  pub Reads-or_raise : (o : Option A) (e : Err) → Reads (or_raise o e)
  Reads-or_raise o e = record { same = λ w. ground arith }

  pub Reads-pure : (a : A) → Reads (pure a)
  Reads-pure a = record { same = λ w. refl }

  pub Reads-query : (fails : ℕ → Bool) (f : Store → A) → Reads (query fails f)
  Reads-query fails f = record { same = λ w. ground arith }

pub Reads-raise_if : (b : Bool) (e : Err) → Reads (raise_if b e)
Reads-raise_if b e = record { same = λ w. refl }

pub Reads-if : {A : Type 0} (b : Bool) (m n : Db A) → Reads m → Reads n → Reads (if b then m else n)
Reads-if true m n km kn = km
Reads-if false m n km kn = kn

module _ {A B : Type 0} where
  Reads-continue :
      (r : Result A) (f : A → Db B) (w : World)
      → ((a : A) → Reads (f a))
      → (continue r f w).1.store ≡ w.store
  Reads-continue (ok a) f w kf = (kf a).same w
  Reads-continue (err e) f w kf = refl

  pub Reads-bind : (m : Db A) (f : A → Db B) → Reads m → ((a : A) → Reads (f a)) → Reads (m >>= f)
  Reads-bind m f km kf = record { same = λ w. Reads-continue (m w).0 f (m w).1 kf ∙ km.same w }

pub ruleset reads_rules =
    (Reads-lift, Reads-or_raise, Reads-pure, Reads-query, Reads-raise_if, Reads-if, Reads-bind)

-- `m` and `n` leave the same tables, whatever they answer.
pub record Alike {A : Type 0} (m n : Db A) : Type 0 where
  pub tables : (w : World) → (m w).1.store ≡ (n w).1.store

pub Alike-Reads : {A : Type 0} (m n : Db A) → Reads m → Reads n → Alike m n
Alike-Reads m n km kn = record { tables = λ w. km.same w ∙ sym (kn.same w) }

module _ {A B : Type 0} where
  Alike-continue :
      (r : Result A) (f g : A → Db B) (w : World)
      → ((a : A) → Alike (f a) (g a))
      → (continue r f w).1.store ≡ (continue r g w).1.store
  Alike-continue (ok a) f g w k = (k a).tables w
  Alike-continue (err e) f g w k = refl

  pub Alike-bind :
      (m : Db A) (f g : A → Db B) → ((a : A) → Alike (f a) (g a)) → Alike (m >>= f) (m >>= g)
  Alike-bind m f g k = record { tables = λ w. Alike-continue (m w).0 f g (m w).1 k }
