-- ===== src/Base/Lists.antt =====
-- Lists counted by native numbers, membership as a test, and a predicate on every element.
use Prim.Native.Nat.{ℕ, zero, suc, ◌+◌}
use mathlib.Core.Path.{◌≡◌}
use mathlib.Core.Bool.{Bool, ◌||◌}
use mathlib.Core.List.{List, [], ◌∷◌, ◌++◌}
use native.Mathlib.Omega.{arith}
use Prim.Native.String.{String}
use mathlib.Core.Path.{subst}
use mathlib.Core.Logic.{inl, inr}
use mathlib.Core.Bool.{false}
use saas_forge.Base.Tests.{Comparable, ◌==◌, if◌then◌else◌, Bool-cases, string_eq}

module _ {ℓ} {A : Type ℓ} where
  abbrev pub length : List A → ℕ
  length [] = 0
  length (x ∷ xs) = suc (length xs)

  abbrev pub take : ℕ → List A → List A
  take zero xs = []
  take (suc n) [] = []
  take (suc n) (x ∷ xs) = x ∷ take n xs

  -- How many elements pass a test.
  abbrev pub count : (A → Bool) → List A → ℕ
  count p [] = 0
  count p (x ∷ xs) = (if p x then 1 else 0) + count p xs

  abbrev pub All {κ} : (A → Type κ) → List A → Type κ
  All P [] = Unit
  All P (x ∷ xs) = P x × All P xs

  pub All-imp {κ κ'} :
      (P : A → Type κ) (Q : A → Type κ') (l : List A) → ((x : A) → P x → Q x) → All P l → All Q l
  All-imp P Q [] k h = tt
  All-imp P Q (x ∷ l) k h = (k x h.0, All-imp P Q l k h.1)

  pub All-both {κ κ' κ''} :
      (P : A → Type κ) (Q : A → Type κ') (R : A → Type κ'')
      → ((x : A) → P x → Q x → R x)
      → (l : List A) → All P l
      → All Q l
      → All R l
  All-both P Q R k [] h g = tt
  All-both P Q R k (x ∷ l) h g = (k x h.0 g.0, All-both P Q R k l h.1 g.1)

  pub All-append {κ} : (P : A → Type κ) (xs ys : List A) → All P (xs ++ ys) → All P xs × All P ys
  All-append P [] ys h = (tt, h)
  All-append P (x ∷ xs) ys h = let (here, rest) = All-append P xs ys h.1 in ((h.0, here), rest)

  pub count-append : (p : A → Bool) (xs ys : List A) → count p (xs ++ ys) ≡ count p xs + count p ys
  count-append p [] ys = omega arith
  count-append p (x ∷ xs) ys = omega (arith, count-append p xs ys)

-- `slices.Contains`, and the loops of the source that do the same.
abbrev pub contains {ℓ} : {T : Type ℓ} ⦃c : Comparable T⦄ → List T → T → Bool
contains [] t = false
contains (x ∷ rest) t = x == t || contains rest t

-- To prove `P` of a text, prove it at each text of a list, and where it differs from them all.
pub by_text {ℓ} :
    (P : String → Type ℓ) (l : List String) (a : String)
    → All P l
    → (All (λ x. (x == a) ≡ false) l → P a)
    → P a
by_text P [] a h other = other tt
by_text P (x ∷ l) a h other = elim (Bool-cases (x == a)) [
  | inl same ↦ subst P ((string_eq.equal_iff x a).0 same) h.0
  | inr differs ↦ by_text P l a h.1 (λ rest. other (differs, rest))
]
