-- ===== src/Effects/Leaves.antt =====
-- A program that leaves a part of the store as it is: one rule for each way to build a program.
use saas_forge.Base.{
  ◌+◌, sym, ap, ℕ, Bool, true, false, ◌≡◌, refl, ◌∙◌, Option, some, none, if◌then◌else◌, Bool-cases,
  inl, inr,
}
use saas_forge.Errors.{Err, Result, ok, err}
use saas_forge.Effects.{
  Run, Db, after, ◌>>=◌, ◌>>◌, return, refuse_if, need, given, given_with, ask, ask_with, ignoring,
  or_else, caught, attempt, settle, write, write_with,
}

-- `f` reads the part.
pub record Leaves {S V : Type 0} (f : S → V) {A : Type 0} (m : Db S A) : Type 0 where
  pub same : (r : Run S) → f (m r).1.store ≡ f r.store

module _ {S V : Type 0} {f : S → V} where
  -- the same, of a program's outcome
  pub left :
      {A : Type 0} (m : Db S A) (leaves : Leaves f m) (r : Run S) (a : A) (end : Run S)
      → m r ≡ (ok a, end)
      → f end.store ≡ f r.store
  left {A} m leaves r a end h =
      ap (λ (out : Result A × Run S). f out.1.store) (sym h) ∙ leaves.same r

  pub Leaves-return : {A : Type 0} (a : A) → Leaves f (return a)
  Leaves-return a = record { same = λ r. refl }

  pub Leaves-refuse_if : (b : Bool) (e : Err) → Leaves f (refuse_if b e)
  Leaves-refuse_if b e = record { same = λ r. refl }

  pub Leaves-need : {A : Type 0} (o : Option A) (e : Err) → Leaves f (need o e)
  Leaves-need none e = record { same = λ r. refl }
  Leaves-need (some a) e = record { same = λ r. refl }

  pub Leaves-given : {A : Type 0} (a : Result A) → Leaves f (given a)
  Leaves-given a = record { same = λ r. refl }

  pub Leaves-ask : {A : Type 0} (fails : ℕ → Bool) (g : S → A) → Leaves f (ask fails g)
  Leaves-ask fails g = record { same = λ r. refl }

  pub Leaves-given_with : {A : Type 0} (g : ℕ → Result A) → Leaves f (given_with g)
  Leaves-given_with g = record { same = λ r. refl }

  pub Leaves-ask_with :
      {A : Type 0} (fails : ℕ → Bool) (g : ℕ → S → A) → Leaves f (ask_with fails g)
  Leaves-ask_with fails g = record { same = λ r. refl }

  pub Leaves-ignoring : {A : Type 0} (m : Db S A) → Leaves f m → Leaves f (ignoring m)
  Leaves-ignoring m h = record { same = h.same }

  Leaves-caught :
      {A : Type 0} (a : Result A) (r : Run S) (handler : Err → Db S A)
      → ((e : Err) → Leaves f (handler e))
      → f (caught (a, r) handler).1.store ≡ f r.store
  Leaves-caught (ok a) r handler h = refl
  Leaves-caught (err e) r handler h = (h e).same r

  pub Leaves-or_else :
      {A : Type 0} (m : Db S A) (handler : Err → Db S A)
      → Leaves f m
      → ((e : Err) → Leaves f (handler e))
      → Leaves f (or_else m handler)
  Leaves-or_else m handler hm h = record {
    same = λ r. Leaves-caught (m r).0 (m r).1 handler h ∙ hm.same r;
  }

  pub Leaves-write :
      (fails : ℕ → Bool) (g : S → S) → ((s : S) → f (g s) ≡ f s) → Leaves f (write fails g)
  Leaves-write fails g h = record {
    same = λ r. elim (Bool-cases (fails r.calls)) [
      | inl refused ↦ rw refused refl
      | inr done ↦ rw done (h r.store)
    ];
  }

  pub Leaves-write_with :
      (fails : ℕ → Bool) (g : ℕ → S → S)
      → ((n : ℕ) (s : S) → f (g n s) ≡ f s)
      → Leaves f (write_with fails g)
  Leaves-write_with fails g h = record {
    same = λ r. (Leaves-write fails (g r.calls) (h r.calls)).same r;
  }

  settle_same :
      {A : Type 0} (n : ℕ) (before : S) (out : Result (A × S))
      → ((a : A) (s : S) → out ≡ ok (a, s) → f s ≡ f before)
      → f (settle n before out).1.store ≡ f before
  settle_same n before (ok (a, s)) h = h a s refl
  settle_same n before (err e) h = refl

  pub Leaves-attempt :
      {A : Type 0} (fails : ℕ → Bool) (g : S → Result (A × S))
      → ((s : S) (a : A) (s' : S) → g s ≡ ok (a, s') → f s' ≡ f s)
      → Leaves f (attempt fails g)
  Leaves-attempt fails g h = record {
    same = λ r. elim (Bool-cases (fails r.calls)) [
      | inl refused ↦ rw refused refl
      | inr done ↦ rw done (settle_same (r.calls + 1) r.store (g r.store) (h r.store))
    ];
  }

  pub Leaves-if :
      {A : Type 0} (b : Bool) (m n : Db S A)
      → Leaves f m
      → Leaves f n
      → Leaves f (if b then m else n)
  Leaves-if true m n hm hn = hm
  Leaves-if false m n hm hn = hn

  module _ {A B : Type 0} where
    Leaves-after :
        (a : Result A) (r : Run S) (rest : A → Db S B)
        → ((a : A) → Leaves f (rest a))
        → f (after (a, r) rest).1.store ≡ f r.store
    Leaves-after (ok a) r rest h = (h a).same r
    Leaves-after (err e) r rest h = refl

    pub Leaves-bind :
        (m : Db S A) (rest : A → Db S B)
        → Leaves f m
        → ((a : A) → Leaves f (rest a))
        → Leaves f (m >>= rest)
    Leaves-bind m rest hm h = record { same = λ r. Leaves-after (m r).0 (m r).1 rest h ∙ hm.same r }

    pub Leaves-then :
        (m : Db S A) (rest : Db S B) → Leaves f m → Leaves f rest → Leaves f (m >> rest)
    Leaves-then m rest hm h = record {
      same = λ r. Leaves-after (m r).0 (m r).1 (λ _. rest) (λ _. h) ∙ hm.same r;
    }

pub ruleset leaves_rules = (
  Leaves-return, Leaves-refuse_if, Leaves-need, Leaves-given, Leaves-ask, Leaves-bind, Leaves-then,
  Leaves-if, Leaves-given_with, Leaves-ask_with, Leaves-ignoring, Leaves-or_else,
)
