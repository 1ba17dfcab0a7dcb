-- ===== src/Effects/Answers.antt =====
-- A program that answers `ok`: what each of its parts did. One that fails in a transaction.
use saas_forge.Base.{
  ap, ◌∙◌, sym, ℕ, ◌+◌, Bool, false, ◌≡◌, refl, Option, some, none, arith, Bool-cases, inl, inr,
}
use saas_forge.Errors.{Err, Result, ok, err}
use saas_forge.Effects.{
  Run, Db, after, ◌>>=◌, ◌>>◌, return, refuse_if, need, ask, write, attempt, settle, close,
  transaction,
}

module _ {S A B : Type 0} where
  after-ok :
      (out : Result A × Run S) (rest : A → Db S B) (b : B) (r : Run S)
      → after out rest ≡ (ok b, r)
      → (a : A) × (between : Run S) × (out ≡ (ok a, between)) × (rest a between ≡ (ok b, r))
  after-ok (ok a, between) rest b r h = (a, between, refl, h)
  after-ok (err e, between) rest b r h = cc

  pub bind-ok :
      (m : Db S A) (rest : A → Db S B) (r : Run S) (b : B) (end : Run S)
      → (m >>= rest) r ≡ (ok b, end)
      → (a : A) × (between : Run S) × (m r ≡ (ok a, between)) × (rest a between ≡ (ok b, end))
  bind-ok m rest r b end h = after-ok (m r) rest b end h

  pub then-ok :
      (m : Db S A) (rest : Db S B) (r : Run S) (b : B) (end : Run S)
      → (m >> rest) r ≡ (ok b, end)
      → (a : A) × (between : Run S) × (m r ≡ (ok a, between)) × (rest between ≡ (ok b, end))
  then-ok m rest r b end h = after-ok (m r) (λ _. rest) b end h

module _ {S A : Type 0} where
  pub need-ok :
      (o : Option A) (e : Err) (r : Run S) (a : A) (end : Run S)
      → need o e r ≡ (ok a, end)
      → (o ≡ some a) × (end ≡ r)
  need-ok none e r a end h = cc
  need-ok (some b) e r a end h = (cc, cc)

  pub return-ok :
      (b : A) (r : Run S) (a : A) (end : Run S) → return b r ≡ (ok a, end) → (a ≡ b) × (end ≡ r)
  return-ok b r a end h = (cc, cc)

  settle-ok :
      (n : ℕ) (before : S) (out : Result (A × S)) (a : A) (end : Run S)
      → settle n before out ≡ (ok a, end)
      → out ≡ ok (a, end.store)
  settle-ok n before (ok (b, s)) a end h = cc
  settle-ok n before (err e) a end h = cc

  module _ (fails : ℕ → Bool) where
    pub ask-ok :
        (f : S → A) (r : Run S) (a : A) (end : Run S)
        → ask fails f r ≡ (ok a, end)
        → (a ≡ f r.store) × (end.store ≡ r.store)
    ask-ok f r a end h = ground arith

    pub attempt-ok :
        (f : S → Result (A × S)) (r : Run S) (a : A) (end : Run S)
        → attempt fails f r ≡ (ok a, end)
        → f r.store ≡ ok (a, end.store)
    attempt-ok f r a end h = elim (Bool-cases (fails r.calls)) [
      | inl refused ↦ ground arith
      | inr done ↦ settle-ok (r.calls + 1) r.store (f r.store) a end (ground arith)
    ]

    close-ok :
        (before : S) (out : Result A × Run S) (a : A) (end : Run S)
        → close fails before out ≡ (ok a, end)
        → (last : Run S) × (out ≡ (ok a, last)) × (end.store ≡ last.store)
    close-ok before (err e, r) a end h = cc
    close-ok before (ok b, r) a end h = (r, ground arith, ground arith)

    -- A transaction that answers has committed what its body left.
    pub transaction-ok :
        (body : Db S A) (r : Run S) (a : A) (end : Run S)
        → transaction fails body r ≡ (ok a, end)
        → (last : Run S) × (body (record r { calls = r.calls + 1 }) ≡ (ok a, last))
          × (end.store ≡ last.store)
    unfolding transaction
    transaction-ok body r a end h = elim (Bool-cases (fails r.calls)) [
      | inl refused ↦ ground arith
      | inr done ↦ close-ok r.store (body (record r { calls = r.calls + 1 })) a end (ground arith)
    ]

    close-err :
        (before : S) (out : Result A × Run S) (e : Err) (end : Run S)
        → close fails before out ≡ (err e, end)
        → end.store ≡ before
    close-err before (err _, r) e end h = cc
    close-err before (ok a, r) e end h = ground arith

    -- A transaction that fails leaves the store as it was.
    pub transaction-err :
        (body : Db S A) (r : Run S) (e : Err) (end : Run S)
        → transaction fails body r ≡ (err e, end)
        → end.store ≡ r.store
    unfolding transaction
    transaction-err body r e end h = elim (Bool-cases (fails r.calls)) [
      | inl refused ↦ ground arith
      | inr done ↦ close-err r.store (body (record r { calls = r.calls + 1 })) e end (ground arith)
    ]

module _ {S : Type 0} where
  pub refuse_if-ok :
      (b : Bool) (e : Err) (r : Run S) (a : Unit {0}) (end : Run S)
      → refuse_if b e r ≡ (ok a, end)
      → (b ≡ false) × (end ≡ r)
  refuse_if-ok b e r a end h = ground arith

  pub write-ok :
      (fails : ℕ → Bool) (g : S → S) (r : Run S) (a : Unit {0}) (end : Run S)
      → write fails g r ≡ (ok a, end)
      → end.store ≡ g r.store
  write-ok fails g r a end h = ground arith

-- a row that is read and must be there
pub find-ok :
    {S A B : Type 0} (fails : ℕ → Bool) (f : S → Option A) (e : Err) (rest : A → Db S B) (r : Run S)
    (b : B) (end : Run S)
    → (ask fails f >>= (λ o. need o e >>= rest)) r ≡ (ok b, end)
    → (a : A) × (between : Run S) × (f r.store ≡ some a)
      × (between.store ≡ r.store)
      × (rest a between ≡ (ok b, end))
find-ok {S} fails f e rest r b end h =
    let (o, r1, asked, h1) = bind-ok (ask fails f) (λ o. need o e >>= rest) r b end h in
    let (a, r2, needed, h2) = bind-ok (need o e) rest r1 b end h1 in
    let (is_read, same) = ask-ok fails f r o r1 asked in
    let (is_there, same_run) = need-ok o e r1 a r2 needed in
    (a, r2, sym is_read ∙ is_there, ap (λ (q : Run S). q.store) same_run ∙ same, h2)
