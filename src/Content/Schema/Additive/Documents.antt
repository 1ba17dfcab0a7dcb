-- ===== src/Content/Schema/Additive/Documents.antt =====
-- When a document that the fields of one list accept is accepted by those of another.
use mathlib.Core.Path.{subst}
use saas_forge.Base.{
  ◌∙◌, String, Bool, true, false, List, [], ◌∷◌, Option, some, none, ◌==◌, string_eq, not,
  if◌then◌else◌, ◌&&◌, ◌||◌, ◌≡◌, refl, arith, Bool-cases, Option-cases, inl, inr, ap, sym, is_some,
  All,
}
use saas_forge.Content.Constraints.{Library, first_error, raise_if}
use saas_forge.Content.Json.{Json, Object, lookup, null, bool, string, float64, array, object}
use saas_forge.Content.Field.{field, Fields, Zones, is_defined, path_of}
use saas_forge.Content.RichText.Spans.{Packages}
use saas_forge.Content.Payload.{
  check_known, check_present, validate_fields, validate_payload, validate_value,
}
use saas_forge.Content.Payload.Scalars.{Times, ValueError}
use saas_forge.Content.Payload.Kept.{Keeps}
use saas_forge.Content.Schema.Additive.Maps.{picked, last_with-key}
use saas_forge.Content.Schema.Change.{ArtifactField}
use saas_forge.Content.Schema.Fields.{index_fields}
use saas_forge.Content.Schema.Resolve.{props_of, load_each}

first_error_left : {A : Type 0} (x y : Option A) → first_error x y ≡ none → x ≡ none
first_error_left none y h = refl
first_error_left (some e) y h = cc

first_error_right : {A : Type 0} (x y : Option A) → first_error x y ≡ none → y ≡ none
first_error_right none y h = h
first_error_right (some e) y h = cc

known_here :
    {A : Type 0} (later : Option A) (b : Bool) (y : A)
    → is_some (elim later [ some z ↦ some z | none ↦ if b then some y else none ])
      ≡ (b || is_some later)
known_here (some z) true y = refl
known_here (some z) false y = refl
known_here none true y = refl
known_here none false y = refl

raise_kept :
    {A : Type 0} (b b' : Bool) (e e' : A)
    → (not b && b') ≡ false
    → Keeps (raise_if b e) (raise_if b' e')
raise_kept true b' e e' n h = cc
raise_kept false true e e' n h = cc
raise_kept false false e e' n h = refl

module _ {F : Type 0} where
  defined_iff :
      (names : ArtifactField F → List String) (subs : ArtifactField F → Fields F)
      (zones : ArtifactField F → Zones F) (fs : List (ArtifactField F)) (key : String)
      → is_defined (load_each names subs zones fs) key ≡ is_some (index_fields fs key)
  defined_iff names subs zones [] key = refl
  defined_iff names subs zones (f ∷ fs) key =
      ap (λ rest. f.key == key || rest) (defined_iff names subs zones fs key)
      ∙ sym (known_here (index_fields fs key) (f.key == key) f)

  -- A payload of known keys has none that is not defined.
  check_known-lookup :
      (prefix : String) (fs : Fields F) (doc : Object F) (key : String)
      → check_known prefix fs doc ≡ none
      → is_defined fs key ≡ false
      → lookup key doc ≡ none
  unfolding check_known
  check_known-lookup prefix fs [] key h n = refl
  check_known-lookup prefix fs ((k, v) ∷ doc) key h n = elim (Bool-cases (k == key)) [
    | inl same ↦
        let undefined : is_defined fs k ≡ false = rw ((string_eq.equal_iff k key).0 same) n in
        ground arith
    | inr other ↦ rw other (check_known-lookup prefix fs doc key (ground arith) n)
  ]

  known_kept :
      (prefix : String) (fs fs' : Fields F) (doc : Object F)
      → ((k : String) → is_defined fs k ≡ true → is_defined fs' k ≡ true)
      → Keeps (check_known prefix fs doc) (check_known prefix fs' doc)
  unfolding check_known
  known_kept prefix fs fs' [] k h = refl
  known_kept prefix fs fs' ((key, v) ∷ doc) k h =
      ground (arith, k key, known_kept prefix fs fs' doc k)

  absent_fine :
      (path : String) (r : Bool) (check : Json F → Option ValueError) (v : Option (Json F))
      → v ≡ none
      → r ≡ false
      → check_present path r check v ≡ none
  unfolding check_present
  absent_fine path r check v absent optional = rw (absent, optional) refl

  -- A value or its absence, under checks of which the second accepts as much as the first.
  present_kept :
      (path path' : String) (r r' : Bool) (check check' : Json F → Option ValueError)
      (v : Option (Json F))
      → (not r && r') ≡ false
      → ((v : Json F) → Keeps (check v) (check' v))
      → Keeps (check_present path r check v) (check_present path' r' check' v)
  unfolding check_present
  present_kept path path' r r' check check' none n k = raise_kept r r' _ _ n
  present_kept path path' r r' check check' (some null) n k = raise_kept r r' _ _ n
  present_kept path path' r r' check check' (some (bool b)) n k = k (bool b)
  present_kept path path' r r' check check' (some (string b)) n k = k (string b)
  present_kept path path' r r' check check' (some (float64 b)) n k = k (float64 b)
  present_kept path path' r r' check check' (some (array b)) n k = k (array b)
  present_kept path path' r r' check check' (some (object b)) n k = k (object b)

module _ {F : Type 0} (lib : Library F) (go : Packages) (times : Times)
    (names : ArtifactField F → List String) where
  -- the check of one field of a loaded list in a document
  abbrev checked :
      String
      → (ArtifactField F → Fields F)
      → (ArtifactField F → Zones F)
      → Object F
      → ArtifactField F
      → Option ValueError
  checked prefix subs zones doc f =
      check_present (path_of prefix f.key) f.required
        (validate_value lib go times prefix (field (props_of names f) (subs f) (zones f)))
        (lookup f.key doc)

  -- A document that a list accepts is accepted by the field that the list has for a key.
  checked_at :
      (prefix : String) (subs : ArtifactField F → Fields F) (zones : ArtifactField F → Zones F)
      (doc : Object F) (fs : List (ArtifactField F)) (key : String) (f : ArtifactField F)
      → index_fields fs key ≡ some f
      → validate_fields lib go times prefix (load_each names subs zones fs) doc ≡ none
      → checked prefix subs zones doc f ≡ none
  unfolding validate_fields
  checked_at prefix subs zones doc [] key f e h = cc
  checked_at prefix subs zones doc (x ∷ fs) key f e h =
      elim (picked (index_fields fs key) _ x f e) [
        | inl later ↦ checked_at prefix subs zones doc fs key f later (first_error_right _ _ h)
        | inr (same, is_f) ↦
            subst (λ g. checked prefix subs zones doc g ≡ none) is_f (first_error_left _ _ h)
      ]

  -- The new field accepts what the old one under the key does, or is not required where there is none.
  abbrev pub FieldKept :
      (ArtifactField F → Fields F)
      → (ArtifactField F → Zones F)
      → (ArtifactField F → Fields F)
      → (ArtifactField F → Zones F)
      → Option (ArtifactField F)
      → ArtifactField F
      → Type 0
  FieldKept subs zones subs' zones' none f = f.required ≡ false
  FieldKept subs zones subs' zones' (some old) f =
      ((not old.required && f.required) ≡ false)
      × ((prefix : String) (v : Json F)
          → Keeps
              (validate_value lib go times prefix
                (field (props_of names old) (subs old) (zones old)) v)
              (validate_value lib go times prefix (field (props_of names f) (subs' f) (zones' f))
                v))

  module _ (subs subs' : ArtifactField F → Fields F) (zones zones' : ArtifactField F → Zones F)
      (from : List (ArtifactField F)) where
    checked_kept :
        (prefix : String) (doc : Object F) (f : ArtifactField F)
        → FieldKept subs zones subs' zones' (index_fields from f.key) f
        → validate_payload lib go times prefix (load_each names subs zones from) doc ≡ none
        → checked prefix subs' zones' doc f ≡ none
    unfolding validate_payload
    checked_kept prefix doc f k h = elim (Option-cases (index_fields from f.key)) [
      | inl new ↦
          let absent =
            check_known-lookup prefix (load_each names subs zones from) doc f.key
              (first_error_left _ _ h) (defined_iff names subs zones from f.key ∙ ap is_some new) in
          let optional = subst (λ o. FieldKept subs zones subs' zones' o f) new k in
          absent_fine _ f.required
            (validate_value lib go times prefix (field (props_of names f) (subs' f) (zones' f)))
            (lookup f.key doc) absent optional
      | inr (old, is_old) ↦
          let (no_requirement, kept) =
            subst (λ o. FieldKept subs zones subs' zones' o f) is_old k in
          let same_key = last_with-key (λ g. g.key) f.key from old is_old in
          let before =
            checked_at prefix subs zones doc from f.key old is_old (first_error_right _ _ h) in
          present_kept (path_of prefix old.key) (path_of prefix f.key) old.required f.required
            (validate_value lib go times prefix (field (props_of names old) (subs old) (zones old)))
            (validate_value lib go times prefix (field (props_of names f) (subs' f) (zones' f)))
            (lookup f.key doc) no_requirement (kept prefix)
            (subst
              (λ key.
                check_present (path_of prefix old.key) old.required
                  (validate_value lib go times prefix
                    (field (props_of names old) (subs old) (zones old)))
                  (lookup key doc)
                ≡ none)
              same_key before)
    ]

    fields_kept :
        (prefix : String) (doc : Object F) (to : List (ArtifactField F))
        → All (λ f. FieldKept subs zones subs' zones' (index_fields from f.key) f) to
        → validate_payload lib go times prefix (load_each names subs zones from) doc ≡ none
        → validate_fields lib go times prefix (load_each names subs' zones' to) doc ≡ none
    unfolding validate_fields
    fields_kept prefix doc [] k h = refl
    fields_kept prefix doc (f ∷ to) (k, rest) h =
        rw (checked_kept prefix doc f k h) (fields_kept prefix doc to rest h)

    -- A payload that one list of fields accepts is accepted by another that has all its keys and
    -- keeps each of its fields.
    pub payload_kept :
        (prefix : String) (doc : Object F) (to : List (ArtifactField F))
        → ((key : String)
            → is_some (index_fields from key) ≡ true
            → is_some (index_fields to key) ≡ true)
        → All (λ f. FieldKept subs zones subs' zones' (index_fields from f.key) f) to
        → Keeps
            (validate_payload lib go times prefix (load_each names subs zones from) doc)
            (validate_payload lib go times prefix (load_each names subs' zones' to) doc)
    unfolding validate_payload
    payload_kept prefix doc to same_keys k h =
        let known =
          known_kept prefix (load_each names subs zones from) (load_each names subs' zones' to) doc
            (λ key d.
              defined_iff names subs' zones' to key
              ∙ same_keys key (sym (defined_iff names subs zones from key) ∙ d))
            (first_error_left _ _ h) in
        rw known (fields_kept prefix doc to k h)
