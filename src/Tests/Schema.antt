-- ===== src/Tests/Schema.antt =====
-- A schema with a component and a dynamic zone, what it becomes, and a rich text with two images.
use saas_forge.Base.{
  ℕ, String, Bool, true, false, List, [], ◌∷◌, some, none, ◌≡◌, refl, arith, All, ◌==◌, nat_eq,
  string_eq, if◌then◌else◌, length, ◌≤◌,
}
use saas_forge.Content.Constraints.{FieldConstraints, validate_field_constraints}
use saas_forge.Content.Constraints.Tightens.{IsEquality}
use saas_forge.Content.Json.{
  Json, Object, array, object, string, item_then, no_items, member_then, no_members, as_array,
}
use saas_forge.Content.RichText.{
  validate_rich_text, collect_rich_text_media_ids, max_image_blocks, validate_blocks,
  validate_block,
}
use saas_forge.Content.RichText.Spans.{Packages, unknown_keys}
use saas_forge.Content.RichText.Images.{IsCollected, IsNodup, collect_rich_text_media_ids-accepted}
use saas_forge.Content.Payload.{validate_payload}
use saas_forge.Content.Payload.Scalars.{field_unknown, Times}
use saas_forge.Content.Schema.{diff_schemas, index_types}
use saas_forge.Content.Schema.Change.{Artifact, ArtifactType, ArtifactField, ArtifactComponent}
use saas_forge.Content.Schema.Resolve.{load_fields}
use saas_forge.Content.Schema.Unchanged.{IsSchema, diff_schemas_self}
use saas_forge.Content.Schema.Components.{check_component_sub_field}
use saas_forge.Content.Schema.Additive.{IsStored, diff_schemas-additive}
use saas_forge.Content.Schema.Additive.Types.{IsField}
use saas_forge.Tests.Content.{of_numbers, of_numbers-IsOrdered}

of_numbers-IsEquality : IsEquality of_numbers
of_numbers-IsEquality = record {
  not_less = λ a b same. (ground arith, ground arith);
  reflexive = λ a finite. ground arith;
}

-- An id is a text of one letter.
abbrev packages : Packages
packages = record {
  parse_uuid = λ s. if s == "a" then some 1 else if s == "b" then some 2 else none;
  has_space = λ s. false;
  to_lower = λ s. s;
}

abbrev times : Times
times = record { is_date = λ s. true; is_datetime = λ s. true }

abbrev no_constraints : FieldConstraints ℕ
no_constraints = record { unique = false; format = ""; pattern = ""; min = none; max = none }

abbrev a_title : ArtifactField ℕ
a_title = record {
  key = "title";
  type = "string";
  label = "Title";
  required = true;
  multiple = false;
  enum_values = [];
  read_roles = [];
  write_roles = [];
  relation_entity = "";
  component = "";
  components = [];
  description = "";
  constraints = no_constraints;
}

abbrev a_zone : ArtifactField ℕ
a_zone = record a_title {
  key = "blocks";
  type = "dynamiczone";
  required = false;
  components = "hero" ∷ [];
}

abbrev a_cover : ArtifactField ℕ
a_cover = record a_title { key = "cover"; type = "component"; component = "hero" }

abbrev a_hero : ArtifactComponent ℕ
a_hero = record { name = "hero"; label = "Hero"; fields = a_title ∷ [] }

abbrev a_post : ArtifactType ℕ
a_post = record {
  name = "post";
  label = "Post";
  read_roles = [];
  write_roles = [];
  own_only_roles = [];
  fields = a_title ∷ a_zone ∷ a_cover ∷ [];
}

abbrev before : Artifact ℕ
before = record {
  artifact_version = "1";
  kind = "content-schema";
  components = a_hero ∷ [];
  types = a_post ∷ [];
}

-- The component's title may be missing, and the type has one more field.
abbrev after : Artifact ℕ
after = record before {
  components = record a_hero { fields = record a_title { required = false } ∷ [] } ∷ [];
  types =
      record a_post {
        fields =
            a_title ∷ a_zone ∷ a_cover ∷ record a_title { key = "body"; required = false } ∷ [];
      }
      ∷ [];
}

abbrev any_key : String → Bool
any_key s = true

title_stored : IsField of_numbers before.components a_title
unfolding validate_field_constraints
title_stored = record { storable = refl; component_declared = refl; zone_declared = λ n h. cc }

zone_stored : IsField of_numbers before.components a_zone
unfolding validate_field_constraints
zone_stored = record {
  storable = refl;
  component_declared = refl;
  zone_declared = λ n h. ground arith;
}

cover_stored : IsField of_numbers before.components a_cover
unfolding validate_field_constraints
cover_stored = record { storable = refl; component_declared = refl; zone_declared = λ n h. cc }

before-IsStored : IsStored of_numbers before
unfolding validate_field_constraints
before-IsStored = record {
  types_stored = ((title_stored, (zone_stored, (cover_stored, tt))), tt);
  components_stored = ((refl, tt), tt);
}

diff_schemas-additive_example :
    (t' : ArtifactType ℕ) × (index_types after.types "post" ≡ some t')
    × ((doc : Object ℕ)
        → validate_payload of_numbers packages times ""
            (load_fields before.components a_post.fields)
            doc
          ≡ none
        → validate_payload of_numbers packages times "" (load_fields after.components t'.fields) doc
          ≡ none)
unfolding diff_schemas
diff_schemas-additive_example =
    diff_schemas-additive of_numbers packages times of_numbers-IsOrdered of_numbers-IsEquality
      any_key before after before-IsStored (refl, (refl, tt)) "post" a_post refl

abbrev an_image : String → Json ℕ
an_image id =
    object (member_then "type" (string "image") (member_then "media_id" (string id) no_members))

abbrev a_text : Json ℕ
a_text =
    array (item_then (an_image "b") (item_then (an_image "a") (item_then (an_image "b") no_items)))

collect_rich_text_media_ids-accepted_example :
    (blocks : List (Json ℕ)) × (as_array a_text ≡ some blocks)
    × All (IsCollected packages (collect_rich_text_media_ids packages a_text)) blocks
    × IsNodup (collect_rich_text_media_ids packages a_text)
    × (length (collect_rich_text_media_ids packages a_text) ≤ max_image_blocks)
unfolding validate_rich_text validate_blocks validate_block unknown_keys
collect_rich_text_media_ids-accepted_example =
    collect_rich_text_media_ids-accepted of_numbers packages a_text refl

-- The hero of an accepted document is checked by its component.
abbrev a_document : Object ℕ
a_document =
    ("title", string "Hello")
    ∷ ("cover", object (member_then "subtitle" (string "x") no_members))
    ∷ []

document_refused :
    validate_payload of_numbers packages times ""
      (load_fields before.components a_post.fields)
      a_document
    ≡ some (field_unknown "cover.subtitle")
unfolding validate_payload load_fields
document_refused = refl

before-IsSchema : IsSchema of_numbers before
unfolding validate_field_constraints check_component_sub_field
before-IsSchema = record {
  types_keyed = (refl, tt);
  components_keyed = (refl, tt);
  type_fields =
      (record { keyed = (refl, (refl, (refl, tt))); storable = (refl, (refl, (refl, tt))) }, tt);
  component_fields = (record { keyed = (refl, tt); storable = (refl, tt) }, tt);
  sub_fields = ((refl, tt), tt);
}

diff_schemas_self_example : diff_schemas of_numbers any_key before before ≡ []
diff_schemas_self_example =
    diff_schemas_self of_numbers of_numbers-IsEquality any_key before before-IsSchema
