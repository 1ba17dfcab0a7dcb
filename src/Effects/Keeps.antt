-- ===== src/Effects/Keeps.antt =====
-- A program that keeps an invariant of the store: one rule for each way to build a program.
use saas_forge.Base.{
  ℕ, Bool, true, false, ◌≡◌, refl, Option, some, none, if◌then◌else◌, Bool-cases, inl, inr,
}
use saas_forge.Errors.{Err, Result, ok, err}
use saas_forge.Effects.{
  Run, Db, after, caught, ◌>>=◌, ◌>>◌, return, refuse_if, need, given, given_with, or_else,
  ignoring, ask, ask_with, write, write_with,
}

pub record Keeps {S : Type 0} (I : S → Type 0) {A : Type 0} (m : Db S A) : Type 0 where
  pub kept : (r : Run S) → I r.store → I (m r).1.store

module _ {S : Type 0} {I : S → Type 0} where
  pub Keeps-return : {A : Type 0} (a : A) → Keeps I (return a)
  Keeps-return a = record { kept = λ r h. h }

  pub Keeps-refuse_if : (b : Bool) (e : Err) → Keeps I (refuse_if b e)
  Keeps-refuse_if b e = record { kept = λ r h. h }

  pub Keeps-need : {A : Type 0} (o : Option A) (e : Err) → Keeps I (need o e)
  Keeps-need none e = record { kept = λ r h. h }
  Keeps-need (some a) e = record { kept = λ r h. h }

  pub Keeps-given : {A : Type 0} (a : Result A) → Keeps I (given a)
  Keeps-given a = record { kept = λ r h. h }

  pub Keeps-given_with : {A : Type 0} (g : ℕ → Result A) → Keeps I (given_with g)
  Keeps-given_with g = record { kept = λ r h. h }

  pub Keeps-ask : {A : Type 0} (fails : ℕ → Bool) (g : S → A) → Keeps I (ask fails g)
  Keeps-ask fails g = record { kept = λ r h. h }

  pub Keeps-ask_with : {A : Type 0} (fails : ℕ → Bool) (g : ℕ → S → A) → Keeps I (ask_with fails g)
  Keeps-ask_with fails g = record { kept = λ r h. h }

  pub Keeps-write :
      (fails : ℕ → Bool) (g : S → S) → ((s : S) → I s → I (g s)) → Keeps I (write fails g)
  Keeps-write fails g step = record {
    kept = λ r h. elim (Bool-cases (fails r.calls)) [
      | inl refused ↦ rw refused h
      | inr done ↦ rw done (step r.store h)
    ];
  }

  pub Keeps-write_with :
      (fails : ℕ → Bool) (g : ℕ → S → S)
      → ((n : ℕ) (s : S) → I s → I (g n s))
      → Keeps I (write_with fails g)
  Keeps-write_with fails g step = record {
    kept = λ r h. (Keeps-write fails (g r.calls) (step r.calls)).kept r h;
  }

  pub Keeps-if :
      {A : Type 0} (b : Bool) (m n : Db S A) → Keeps I m → Keeps I n → Keeps I (if b then m else n)
  Keeps-if true m n hm hn = hm
  Keeps-if false m n hm hn = hn

  pub Keeps-ignoring : {A : Type 0} (m : Db S A) → Keeps I m → Keeps I (ignoring m)
  Keeps-ignoring m hm = record { kept = hm.kept }

  Keeps-caught :
      {A : Type 0} (a : Result A) (r : Run S) (handler : Err → Db S A)
      → ((e : Err) → Keeps I (handler e))
      → I r.store
      → I (caught (a, r) handler).1.store
  Keeps-caught (ok a) r handler steps h = h
  Keeps-caught (err e) r handler steps h = (steps e).kept r h

  pub Keeps-or_else :
      {A : Type 0} (m : Db S A) (handler : Err → Db S A)
      → Keeps I m
      → ((e : Err) → Keeps I (handler e))
      → Keeps I (or_else m handler)
  Keeps-or_else m handler hm steps = record {
    kept = λ r h. Keeps-caught (m r).0 (m r).1 handler steps (hm.kept r h);
  }

  module _ {A B : Type 0} where
    Keeps-after :
        (a : Result A) (r : Run S) (rest : A → Db S B)
        → ((a : A) → Keeps I (rest a))
        → I r.store
        → I (after (a, r) rest).1.store
    Keeps-after (ok a) r rest steps h = (steps a).kept r h
    Keeps-after (err e) r rest steps h = h

    pub Keeps-bind :
        (m : Db S A) (rest : A → Db S B)
        → Keeps I m
        → ((a : A) → Keeps I (rest a))
        → Keeps I (m >>= rest)
    Keeps-bind m rest hm steps = record {
      kept = λ r h. Keeps-after (m r).0 (m r).1 rest steps (hm.kept r h);
    }

    pub Keeps-then : (m : Db S A) (rest : Db S B) → Keeps I m → Keeps I rest → Keeps I (m >> rest)
    Keeps-then m rest hm step = record {
      kept = λ r h. Keeps-after (m r).0 (m r).1 (λ _. rest) (λ _. step) (hm.kept r h);
    }

module _ {S A B : Type 0} {I : S → Type 0} where
  -- what is done with a value that the random source or the clock gave
  pub Keeps-drawn :
      (g : ℕ → Result A) (rest : A → Db S B)
      → ((n : ℕ) (a : A) → g n ≡ ok a → Keeps I (rest a))
      → Keeps I (given_with g >>= rest)
  Keeps-drawn g rest steps = record { kept = λ r h. Keeps-given_after (g r.calls) refl r h }
    where
      Keeps-given_after :
          (a : Result A) {n : ℕ} → g n ≡ a → (r : Run S) → I r.store → I (after (a, r) rest).1.store
      Keeps-given_after (ok a) {n} drawn r h = (steps n a drawn).kept r h
      Keeps-given_after (err e) {n} drawn r h = h

pub ruleset keeps_rules = (
  Keeps-return, Keeps-refuse_if, Keeps-need, Keeps-given, Keeps-given_with, Keeps-ask,
  Keeps-ask_with, Keeps-ignoring, Keeps-or_else, Keeps-bind, Keeps-then, Keeps-if,
)
