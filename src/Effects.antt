-- ===== src/Effects.antt =====
-- Database programs over any store: a run of calls that may fail, errors as values, transactions.
-- `fails n` says that the database refuses the n-th call.
pub mod Leaves
pub mod Answers
pub mod Keeps
use saas_forge.Base.{ℕ, ◌+◌, Bool, Option, some, none, if◌then◌else◌}
use saas_forge.Errors.{Err, Result, ok, err}

pub record Run (S : Type 0) : Type 0 where
  pub store : S
  -- database calls made so far
  pub calls : ℕ

abbrev pub Db : Type 0 → Type 0 → Type 0
Db S A = Run S → Result A × Run S

module _ {S : Type 0} where
  abbrev pub after : {A B : Type 0} → Result A × Run S → (A → Db S B) → Result B × Run S
  after (ok a, r) rest = rest a r
  after (err e, r) rest = (err e, r)

  infixl 5 ◌>>=◌
  abbrev pub ◌>>=◌ : {A B : Type 0} → Db S A → (A → Db S B) → Db S B
  first >>= rest = λ r. after (first r) rest

  infixl 5 ◌>>◌
  abbrev pub ◌>>◌ : {A B : Type 0} → Db S A → Db S B → Db S B
  first >> rest = λ r. after (first r) (λ _. rest)

  abbrev pub return : {A : Type 0} → A → Db S A
  return a r = (ok a, r)

  abbrev pub refuse_if : Bool → Err → Db S (Unit {0})
  refuse_if b e r = (if b then err e else ok tt, r)

  abbrev pub need : {A : Type 0} → Option A → Err → Db S A
  need none e r = (err e, r)
  need (some a) e r = (ok a, r)

  -- `if err != nil { … }`
  abbrev pub caught : {A : Type 0} → Result A × Run S → (Err → Db S A) → Result A × Run S
  caught (ok a, r) handler = (ok a, r)
  caught (err e, r) handler = handler e r

  abbrev pub or_else : {A : Type 0} → Db S A → (Err → Db S A) → Db S A
  or_else m handler r = caught (m r) handler

  -- `_ = …`
  abbrev pub ignoring : {A : Type 0} → Db S A → Db S (Unit {0})
  ignoring m r = (ok tt, (m r).1)

  -- what the program decides without the database
  abbrev pub given : {A : Type 0} → Result A → Db S A
  given a r = (a, r)

  -- what depends on the number of calls made as well: the clock, the random source
  abbrev pub given_with : {A : Type 0} → (ℕ → Result A) → Db S A
  given_with f r = (f r.calls, r)

  abbrev settle : {A : Type 0} → ℕ → S → Result (A × S) → Result A × Run S
  settle calls before (ok (a, s)) = (ok a, record { store = s; calls = calls })
  settle calls before (err e) = (err e, record { store = before; calls = calls })

  module _ (fails : ℕ → Bool) where
    -- one round trip
    abbrev pub ask : {A : Type 0} → (S → A) → Db S A
    ask f r = (
      if fails r.calls then err Err.internal else ok (f r.store),
      record r { calls = r.calls + 1 },
    )

    -- `ask`, of what depends on the number of the call: the clock
    abbrev pub ask_with : {A : Type 0} → (ℕ → S → A) → Db S A
    ask_with f r = ask (f r.calls) r

    abbrev pub write : (S → S) → Db S (Unit {0})
    write f r =
        if fails r.calls
        then (err Err.internal, record r { calls = r.calls + 1 })
        else (ok tt, record { store = f r.store; calls = r.calls + 1 })

    -- `write`, of what depends on the number of the call: a random id
    abbrev pub write_with : (ℕ → S → S) → Db S (Unit {0})
    write_with f r = write (f r.calls) r

    -- a statement that answers with the store that it leaves, or that fails
    abbrev pub attempt : {A : Type 0} → (S → Result (A × S)) → Db S A
    attempt f r =
        if fails r.calls
        then (err Err.internal, record r { calls = r.calls + 1 })
        else settle (r.calls + 1) r.store (f r.store)

    abbrev close : {A : Type 0} → S → Result A × Run S → Result A × Run S
    close before (err e, r) = (err e, record r { store = before })
    close before (ok a, r) =
        if fails r.calls
        then (err Err.internal, record { store = before; calls = r.calls + 1 })
        else (ok a, record r { calls = r.calls + 1 })

    -- `Begin`, the body, then `Commit`, or the deferred `Rollback`
    unfoldable pub transaction : {A : Type 0} → Db S A → Db S A
    transaction body r =
        if fails r.calls
        then (err Err.internal, record r { calls = r.calls + 1 })
        else close r.store (body (record r { calls = r.calls + 1 }))
