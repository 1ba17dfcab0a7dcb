-- ===== src/Tests/Content.antt =====
-- A content type with a field that only editors see, and one that only owners write.
use saas_forge.Base.{
  Bool, eq_iff, inr, inl, Bool-cases, is_some, ◌⊎◌, nat_eq, ltb, ℕ, arith, String, ◌≡◌, refl, true,
  false, List, [], ◌∷◌, ◌&&◌, ◌||◌, ◌↔◌, All, contains, if◌then◌else◌, Option, some, none, ◌==◌,
  string_eq,
}
use saas_forge.Errors.{ok}
use mathlib.Core.Path.{sym, ap, subst}
use saas_forge.Authn.{Subject, human}
use saas_forge.Content.Constraints.{
  Library, FieldConstraints, number, validate_field_constraints, check_value, check_range,
  check_bound, range_allowed_for, unique_allowed_for, tightens, check_size,
}
use saas_forge.Content.Constraints.Tightens.{IsOrdered, check_value_loosened}
use saas_forge.Content.Permission.{Field, ContentType, is_empty}
use saas_forge.Content.Permission.Guards.{
  strip_keys, Doc, can_write_type, effective_type_write_roles, guard_writable_keys, payload_keys,
  lookup_key, delete_keys, unreadable_keys,
}
use saas_forge.Content.Permission.Writes.{
  may_write, can_write_type-effective, guard_writable_keys-ok,
}
use saas_forge.Content.Permission.Reads.{
  is_hidden, lookup_key-delete_keys, strip_keys-lookup, value_at, IsFaithful,
}

abbrev a_title : Field
a_title = record { key = "title"; required = true; read_roles = []; write_roles = [] }

abbrev a_note : Field
a_note = record {
  key = "note";
  required = false;
  read_roles = "editor" ∷ [];
  write_roles = "owner" ∷ [];
}

abbrev a_post : ContentType
a_post = record {
  name = "post";
  fields = a_title ∷ a_note ∷ [];
  read_roles = "viewer" ∷ "editor" ∷ [];
  write_roles = "editor" ∷ [];
  own_only_roles = [];
}

abbrev a_viewer : Subject
a_viewer = record {
  user_id = 7;
  roles = [];
  tenant_id = "acme";
  tenant_role = "viewer";
  region = "eu";
  mfa_verified = true;
  public_delivery = false;
  preview_entry_id = none;
  kind = human;
  agent_id = none;
  principal_id = none;
  allowed_types = none;
  credential_id = none;
}

abbrev a_document : Doc
a_document = ("title", "\"Hello\"") ∷ ("note", "\"secret\"") ∷ []

abbrev decode : String → Option Doc
decode raw = if raw == "document" then some a_document else none

abbrev encode : Doc → Option String
encode doc = some "document"

abbrev as_it_is : List String → List String
as_it_is l = l

can_write_type-effective_example : can_write_type a_post a_viewer ≡ (
    is_empty a_post.read_roles && is_empty a_post.write_roles
    || contains (effective_type_write_roles a_post) "viewer")
can_write_type-effective_example = can_write_type-effective a_post a_viewer refl

guard_writable_keys-ok_example :
    (guard_writable_keys decode encode as_it_is a_post a_viewer "document" ≡ ok tt)
    ↔ All (λ k. may_write a_post.fields a_viewer k ≡ true) ("title" ∷ "note" ∷ [])
unfolding payload_keys
guard_writable_keys-ok_example =
    guard_writable_keys-ok decode encode as_it_is a_post a_viewer "document" ("title" ∷ "note" ∷ [])
      refl

-- A format of two texts.
abbrev a_secret : Doc
a_secret = ("note", "\"secret\"") ∷ []

abbrev read_secret : String → Option Doc
read_secret raw = if raw == "secret" then some a_secret else if raw == "{}" then some [] else none

abbrev write_secret : Doc → Option String
write_secret doc = if is_some (lookup_key "note" doc) then some "secret" else some "{}"

abbrev the_text : String → String
the_text v = v

the_doc : Option Doc → Doc
the_doc none = []
the_doc (some doc) = doc

of_two :
    (is_secret is_object : Bool) (doc : Doc)
    → (if is_secret then some a_secret else if is_object then some [] else none) ≡ some doc
    → (doc ≡ a_secret) ⊎ (doc ≡ [])
unfolding the_doc
of_two true is_object doc h = inl (ap the_doc (sym h))
of_two false true doc h = inr (ap the_doc (sym h))
of_two false false doc h = ground arith

a_secret_key :
    (ks : List String) (k : String)
    → lookup_key k (delete_keys ks a_secret)
      ≡ (if contains ks "note" then none else lookup_key k a_secret)
a_secret_key ks k = elim (Bool-cases ("note" == k)) [
  | inl same ↦
      subst
        (λ (j : String).
          lookup_key j (delete_keys ks a_secret)
          ≡ (if contains ks "note" then none else lookup_key j a_secret))
        ((eq_iff "note" k).0 same) (lookup_key-delete_keys ks "note" a_secret)
  | inr other ↦ ground (arith, lookup_key-delete_keys ks k a_secret)
]

secret-IsFaithful : IsFaithful the_text read_secret write_secret
secret-IsFaithful raw doc ks h = elim (of_two (raw == "secret") (raw == "{}") doc h) [
  | inl is_secret ↦ rw is_secret (elim (Bool-cases (contains ks "note")) [
    | inl hit ↦ (
      "{}",
      [],
      ground (arith, a_secret_key ks "note"),
      refl,
      λ k. ground (arith, a_secret_key ks k),
    )
    | inr miss ↦ (
      "secret",
      a_secret,
      ground (arith, a_secret_key ks "note"),
      refl,
      λ k. ground (arith, a_secret_key ks k),
    )
  ])
  | inr is_none ↦ rw is_none (
    "{}",
    [],
    ground (arith, lookup_key-delete_keys ks "note" []),
    refl,
    λ k. ground (arith, lookup_key-delete_keys ks k []),
  )
]

strip_keys-lookup_example :
    value_at the_text read_secret "note" (
      strip_keys read_secret write_secret as_it_is "secret"
        (unreadable_keys a_post.fields a_viewer))
    ≡ (if is_hidden a_post.fields a_viewer "note" then none else some "\"secret\"")
strip_keys-lookup_example =
    strip_keys-lookup the_text read_secret write_secret as_it_is a_post.fields a_viewer "note"
      "secret" secret-IsFaithful refl refl

-- Numbers for float64, and a pattern that matches itself.
abbrev pub of_numbers : Library ℕ
of_numbers = record {
  less = ltb;
  same = λ a b. a == b;
  is_finite = λ v. true;
  is_whole = λ v. true;
  zero = 0;
  of_count = λ n. n;
  rune_count = λ s. 5;
  is_slug = λ s. true;
  compile = λ pattern. some (λ s. s == pattern);
}

pub of_numbers-IsOrdered : IsOrdered of_numbers
of_numbers-IsOrdered = record {
  not_below = λ v a b finite h k. ground arith;
  not_above = λ v a b finite h k. ground arith;
}

abbrev between_3_and_9 : FieldConstraints ℕ
between_3_and_9 = record { unique = true; format = ""; pattern = ""; min = some 3; max = some 9 }

abbrev from_1 : FieldConstraints ℕ
from_1 = record between_3_and_9 { min = some 1; max = none }

check_value_loosened_example : check_value of_numbers from_1 "number" (number 5) ≡ none
unfolding validate_field_constraints check_value check_range check_bound range_allowed_for
    unique_allowed_for tightens check_size
check_value_loosened_example =
    check_value_loosened of_numbers of_numbers-IsOrdered between_3_and_9 from_1 "number" false
      (number 5) refl refl refl
