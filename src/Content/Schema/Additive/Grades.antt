-- ===== src/Content/Schema/Additive/Grades.antt =====
-- What it says of a list of changes that all of them are additive.
use saas_forge.Base.{
  Option-cases, is_some, All-append, String, Bool, true, false, List, [], ◌∷◌, Option, some, none,
  ◌==◌, string_eq, not, if◌then◌else◌, ◌≡◌, refl, arith, Bool-cases, inl, inr, contains, All,
}
use saas_forge.Content.Permission.{is_empty}
use saas_forge.Content.Schema.Change.{SchemaChange, is_additive, missing_from}
use mathlib.Core.Path.{subst}
use saas_forge.Content.Schema.Change.{last_with, changes_of_each, deleted}
use saas_forge.Content.Schema.Additive.Maps.{picked, last_with-key}

abbrev pub AllAdditive : {F : Type 0} → List (SchemaChange F) → Type 0
AllAdditive l = All (λ c. is_additive c ≡ true) l

module _ {F : Type 0} where
  -- A change that is not additive has not been made.
  pub not_made :
      (b : Bool) (c : SchemaChange F) (other : List (SchemaChange F))
      → is_additive c ≡ false
      → AllAdditive (if b then c ∷ [] else other)
      → b ≡ false
  not_made true c other n h = cc
  not_made false c other n h = refl

  pub otherwise :
      (b : Bool) (l other : List (SchemaChange F))
      → b ≡ false
      → AllAdditive (if b then l else other)
      → AllAdditive other
  otherwise true l other n h = cc
  otherwise false l other n h = h

  pub first_or_rest :
      (l rest : List (SchemaChange F))
      → AllAdditive (if not (is_empty l) then l else rest)
      → AllAdditive l × (is_empty l ≡ true → AllAdditive rest)
  first_or_rest [] rest h = (tt, λ e. h)
  first_or_rest (c ∷ l) rest h = (h, λ e. elim (nothing e) [ ])
    where
      nothing : false ≡ true → ⊥
      nothing e = cc

-- The members of a list that has lost none.
pub none_missing :
    (old next : List String) (v : String)
    → is_empty (missing_from old next) ≡ true
    → contains old v ≡ true
    → contains next v ≡ true
none_missing [] next v h c = cc
none_missing (x ∷ old) next v h c = elim (Bool-cases (contains next x)) [
  | inl kept ↦ elim (Bool-cases (x == v)) [
    | inl same ↦ rw⁻¹ ((string_eq.equal_iff x v).0 same) kept
    | inr other ↦ ground (arith, none_missing old next v)
  ]
  | inr gone ↦ ground arith
]

pub un_not : (b : Bool) → not b ≡ false → b ≡ true
un_not true h = refl
un_not false h = cc

module _ {A : Type 0} where
  -- What a predicate says of every element it says of the one that a map has for a key.
  pub All-last_with :
      (P : A → Type 0) (key_of : A → String) (key : String) (l : List A) (x : A)
      → All P l
      → last_with key_of key l ≡ some x
      → P x
  All-last_with P key_of key [] x h e = elim (nothing e) [ ]
    where
      nothing : {B : Type 0} {b : B} → none ≡ some b → ⊥
      nothing e = cc
  All-last_with P key_of key (y ∷ l) x h e = elim (picked (last_with key_of key l) _ y x e) [
    | inl later ↦ All-last_with P key_of key l x h.1 later
    | inr (same, is_x) ↦ subst P is_x h.0
  ]

module _ {A F : Type 0} where
  -- Where each change is additive, so are the changes of each element.
  pub each-additive :
      (changes : A → List (SchemaChange F)) (l : List A)
      → AllAdditive (changes_of_each changes l)
      → All (λ x. AllAdditive (changes x)) l
  each-additive changes [] h = tt
  each-additive changes (x ∷ l) h =
      let (here, rest) = All-append (λ c. is_additive c ≡ true) (changes x) _ h in
      (here, each-additive changes l rest)

  kept_each :
      (key_of : A → String) (deletion : A → SchemaChange F) (kept : String → Bool)
      → ((x : A) → is_additive (deletion x) ≡ false)
      → (l : List A)
      → All (λ x. AllAdditive (if not (kept (key_of x)) then deletion x ∷ [] else [])) l
      → All (λ x. kept (key_of x) ≡ true) l
  kept_each key_of deletion kept n [] h = tt
  kept_each key_of deletion kept n (x ∷ l) h = (
    un_not _ (not_made (not (kept (key_of x))) (deletion x) [] (n x) h.0),
    kept_each key_of deletion kept n l h.1,
  )

  -- An element that was not deleted is there.
  pub not_deleted :
      (key_of : A → String) (deletion : A → SchemaChange F) (kept : String → Bool)
      → ((x : A) → is_additive (deletion x) ≡ false)
      → (l : List A) → AllAdditive (deleted key_of deletion kept l)
      → (key : String) → is_some (last_with key_of key l) ≡ true
      → kept key ≡ true
  not_deleted key_of deletion kept n l h key there = elim (Option-cases (last_with key_of key l)) [
    | inl nothing ↦ ground arith
    | inr (x, is_x) ↦ rw⁻¹ (last_with-key key_of key l x is_x) (
        All-last_with (λ y. kept (key_of y) ≡ true) key_of key l x
          (kept_each key_of deletion kept n l
            (each-additive (λ y. if not (kept (key_of y)) then deletion y ∷ [] else []) l h))
          is_x)
  ]

pub unrefused :
    {A F : Type 0} (refusal : Option A) (c : A → SchemaChange F) (l : List (SchemaChange F))
    → ((d : A) → is_additive (c d) ≡ false)
    → AllAdditive (elim refusal [ some d ↦ c d ∷ [] | none ↦ l ])
    → AllAdditive l
unrefused none c l n h = h
unrefused (some d) c l n h = elim (contradiction (n d) h.0) [ ]
  where
    contradiction : {x : Bool} → x ≡ false → x ≡ true → ⊥
    contradiction a b = cc

-- What is not refused, or not guarded, where the answer is additive.
pub unrefused_change :
    {A F : Type 0} (refusal : Option A) (c : A → SchemaChange F) (other : SchemaChange F)
    → ((d : A) → is_additive (c d) ≡ false)
    → is_additive (elim refusal [ some d ↦ c d | none ↦ other ]) ≡ true
    → is_additive other ≡ true
unrefused_change none c other n h = h
unrefused_change (some d) c other n h = ground (arith, n d)

pub unguarded_change :
    {F : Type 0} (b : Bool) (c other : SchemaChange F)
    → is_additive c ≡ false
    → is_additive (if b then c else other) ≡ true
    → b ≡ false
unguarded_change true c other n h = cc
unguarded_change false c other n h = refl
