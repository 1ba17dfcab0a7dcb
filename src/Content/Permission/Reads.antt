-- ===== src/Content/Permission/Reads.antt =====
-- Which keys of a document a reader sees.
use saas_forge.Base.{
  inr, inl, Bool-cases, true, some, Option, ◌==◌, string_eq, String, ◌≡◌, refl, Bool, false, List,
  [], ◌∷◌, ◌||◌, ◌&&◌, contains, not, if◌then◌else◌, none, arith, eq_iff,
}
use mathlib.Core.Path.{sym, subst}
use saas_forge.Authn.{Subject}
use saas_forge.Content.Permission.{role_allowed, readable_by, is_empty, Field}
use saas_forge.Content.Permission.Guards.{
  strip_keys, Doc, lookup_key, delete_key, delete_keys, can_read_field, unreadable_keys,
}

lookup_key-delete_key :
    (k j : String) (doc : Doc)
    → lookup_key j (delete_key k doc) ≡ (if k == j then none else lookup_key j doc)
lookup_key-delete_key k j [] = ground arith
lookup_key-delete_key k j ((i, v) ∷ doc) =
    ground (arith, lookup_key-delete_key k j doc, eq_iff i k, eq_iff i j, eq_iff k j)

pub lookup_key-delete_keys :
    (ks : List String) (j : String) (doc : Doc)
    → lookup_key j (delete_keys ks doc) ≡ (if contains ks j then none else lookup_key j doc)
unfolding delete_keys
lookup_key-delete_keys [] j doc = refl
lookup_key-delete_keys (k ∷ ks) j doc =
    ground (arith, lookup_key-delete_keys ks j (delete_key k doc), lookup_key-delete_key k j doc)

-- Whether a field is closed to the reader: it names its readers, and the reader is none of them or
-- comes by public delivery.
abbrev pub is_closed : Field → Subject → Bool
is_closed f sub =
    not (is_empty f.read_roles)
    && (sub.public_delivery || not (contains f.read_roles sub.tenant_role))

-- Some field of this key is closed to the reader.
unfoldable pub is_hidden : List Field → Subject → String → Bool
is_hidden [] sub k = false
is_hidden (f ∷ fs) sub k = f.key == k && is_closed f sub || is_hidden fs sub k

can_read_field-is_closed :
    (f : Field) (sub : Subject) → can_read_field f sub ≡ not (is_closed f sub)
unfolding can_read_field readable_by role_allowed
can_read_field-is_closed f sub = ground arith

contains-unreadable_keys :
    (fields : List Field) (sub : Subject) (k : String)
    → contains (unreadable_keys fields sub) k ≡ is_hidden fields sub k
unfolding unreadable_keys is_hidden
contains-unreadable_keys [] sub k = refl
contains-unreadable_keys (f ∷ fs) sub k =
    ground (arith, contains-unreadable_keys fs sub k, can_read_field-is_closed f sub)

no_key_hidden : (ks : List String) (k : String) → is_empty ks ≡ true → contains ks k ≡ false
no_key_hidden [] k h = refl
no_key_hidden (j ∷ ks) k h = ground arith

-- `value` is what the text of a JSON value stands for: `json.Marshal` may write it otherwise.
module _ {V : Type 0} (value : String → V) where
  abbrev pub read_value : Option String → Option V
  read_value none = none
  read_value (some v) = some (value v)

  abbrev pub read_key : String → Doc → Option V
  read_key k doc = read_value (lookup_key k doc)

  -- the value under a key of the object that a text holds
  abbrev pub value_at : (String → Option Doc) → String → String → Option V
  value_at unmarshal k raw = elim (unmarshal raw) [ none ↦ none | some doc ↦ read_key k doc ]

-- `json.Marshal` of a part of what `json.Unmarshal` read answers with a text that is read back with
-- the same values under the same keys.
abbrev pub IsFaithful :
    {V : Type 0} → (String → V) → (String → Option Doc) → (Doc → Option String) → Type 0
IsFaithful value unmarshal marshal =
    (raw : String) (doc : Doc) (ks : List String)
    → unmarshal raw ≡ some doc
    → (out : String) × (doc' : Doc) × (marshal (delete_keys ks doc) ≡ some out)
      × (unmarshal out ≡ some doc')
      × ((k : String) → read_key value k doc' ≡ read_key value k (delete_keys ks doc))

module _ {V : Type 0} (value : String → V) (unmarshal : String → Option Doc)
    (marshal : Doc → Option String) (sort_strings : List String → List String) where
  stripped_lem :
      (fields : List Field) (sub : Subject) (k raw : String)
      → IsFaithful value unmarshal marshal
      → is_empty (unreadable_keys fields sub) ≡ false
      → (raw == "") ≡ false
      → unmarshal "{}" ≡ some []
      → (read : Option Doc) → unmarshal raw ≡ read
      → value_at value unmarshal k
          (strip_keys unmarshal marshal sort_strings raw (unreadable_keys fields sub))
        ≡ (if is_hidden fields sub k then none else value_at value unmarshal k raw)
  unfolding strip_keys
  stripped_lem fields sub k raw faithful some_closed is_text empty_object none is_none =
      ground arith
  stripped_lem fields sub k raw faithful some_closed is_text empty_object (some doc) is_some =
      let (out, doc', written, read_back, same) =
        faithful raw doc (unreadable_keys fields sub) is_some in
      ground (
        arith,
        same k,
        lookup_key-delete_keys (unreadable_keys fields sub) k doc,
        contains-unreadable_keys fields sub k,
      )

  -- Where `json.Marshal` writes back what `json.Unmarshal` read, "{}" is the empty object and the
  -- empty text is none: in a payload that is stripped of the keys that a reader may not read, there
  -- is nothing under a key that some field has that is closed to the reader, and under every other
  -- key the value that the payload has there.
  pub strip_keys-lookup :
      (fields : List Field) (sub : Subject) (k raw : String)
      → IsFaithful value unmarshal marshal
      → unmarshal "{}" ≡ some []
      → unmarshal "" ≡ none
      → value_at value unmarshal k
          (strip_keys unmarshal marshal sort_strings raw (unreadable_keys fields sub))
        ≡ (if is_hidden fields sub k then none else value_at value unmarshal k raw)
  unfolding strip_keys
  strip_keys-lookup fields sub k raw faithful empty_object empty_text =
      elim (Bool-cases (is_empty (unreadable_keys fields sub))) [
        | inl open_to_all ↦ ground (
          arith,
          contains-unreadable_keys fields sub k,
          no_key_hidden (unreadable_keys fields sub) k open_to_all,
        )
        | inr some_closed ↦ elim (Bool-cases (raw == "")) [
          | inl no_text ↦
              let is_none =
                subst (λ (t : String). unmarshal t ≡ none) (sym ((eq_iff raw "").0 no_text))
                  empty_text in
              ground arith
          | inr is_text ↦
              stripped_lem fields sub k raw faithful some_closed is_text empty_object
                (unmarshal raw) refl
        ]
      ]
