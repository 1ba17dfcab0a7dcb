-- ===== src/Content/Schema/Additive/Maps.antt =====
-- The map that a loop fills from a list.
use saas_forge.Base.{
  String, Bool, true, false, List, [], ◌∷◌, Option, some, none, string_eq, if◌then◌else◌, ◌≡◌, refl,
  sym, ap, ◌∙◌, ◌⊎◌, inl, inr,
}
use saas_forge.Content.Schema.Change.{last_with}

pub picked :
    {A : Type 0} (later : Option A) (b : Bool) (y x : A)
    → elim later [ some z ↦ some z | none ↦ if b then some y else none ] ≡ some x
    → (later ≡ some x) ⊎ ((b ≡ true) × (y ≡ x))
picked (some z) b y x h = inl h
picked none true y x h = inr (refl, cc)
picked none false y x h = cc

-- The element that a map has for a key has the key.
pub last_with-key :
    {A : Type 0} (key_of : A → String) (key : String) (l : List A) (x : A)
    → last_with key_of key l ≡ some x
    → key_of x ≡ key
last_with-key key_of key [] x h = cc
last_with-key key_of key (y ∷ l) x h = elim (picked (last_with key_of key l) _ y x h) [
  | inl later ↦ last_with-key key_of key l x later
  | inr (same, is_x) ↦ sym (ap key_of is_x) ∙ (string_eq.equal_iff (key_of y) key).0 same
]
