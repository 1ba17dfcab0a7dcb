-- ===== src/Content/Schema/Change.antt =====
-- internal/cms/content/domain/artifact.go and artifact_diff.go: the schema document, and a change.
use saas_forge.Base.{
  ◌++◌, String, Bool, true, false, List, [], ◌∷◌, Option, some, none, ◌==◌, string_eq, not,
  if◌then◌else◌, ◌&&◌, contains, nat_eq,
}
use saas_forge.Content.Constraints.{FieldConstraints}

pub record ArtifactField (F : Type 0) : Type 0 where
  pub key : String
  pub type : String
  pub label : String
  pub required : Bool
  pub multiple : Bool
  pub enum_values : List String
  pub read_roles : List String
  pub write_roles : List String
  pub relation_entity : String
  pub component : String
  pub components : List String
  pub description : String
  pub constraints : FieldConstraints F

pub record ArtifactComponent (F : Type 0) : Type 0 where
  pub name : String
  pub label : String
  pub fields : List (ArtifactField F)

pub record ArtifactType (F : Type 0) : Type 0 where
  pub name : String
  pub label : String
  pub read_roles : List String
  pub write_roles : List String
  pub own_only_roles : List String
  pub fields : List (ArtifactField F)

pub record Artifact (F : Type 0) : Type 0 where
  pub artifact_version : String
  pub kind : String
  pub components : List (ArtifactComponent F)
  pub types : List (ArtifactType F)

pub data ChangeGrade : Type 0 where
  additive guarded refused : ChangeGrade

pub data ChangeOp : Type 0 where
  create_type delete_type update_type add_field delete_field update_field : ChangeOp
  create_component update_component delete_component : ChangeOp
  add_component_field update_component_field delete_component_field : ChangeOp

-- the two texts of `Hint`
pub data Hint : Type 0 where
  reshape rename : Hint

-- `SchemaChange` without the sentence in `Detail`
pub record SchemaChange (F : Type 0) : Type 0 where
  pub op : ChangeOp
  pub type : String
  pub field : String
  pub grade : ChangeGrade
  pub component : String
  pub code : String
  pub hint : Option Hint
  pub removed_values : List String
  pub constraints : Option (FieldConstraints F)
  pub removed_components : List String

abbrev pub is_additive : {F : Type 0} → SchemaChange F → Bool
is_additive c = elim c.grade [ additive ↦ true | guarded ↦ false | refused ↦ false ]

abbrev pub is_refused : {F : Type 0} → SchemaChange F → Bool
is_refused c = elim c.grade [ additive ↦ false | guarded ↦ false | refused ↦ true ]

-- A change that sets no more than the four fields that every change sets.
abbrev pub change : {F : Type 0} → ChangeOp → String → String → ChangeGrade → SchemaChange F
change op type field grade = record {
  op = op;
  type = type;
  field = field;
  grade = grade;
  component = "";
  code = "";
  hint = none;
  removed_values = [];
  constraints = none;
  removed_components = [];
}

-- The map that a loop fills from a list: it has the last element of a key.
abbrev pub last_with {ℓ} : {A : Type ℓ} → (A → String) → String → List A → Option A
last_with key_of key [] = none
last_with key_of key (x ∷ xs) = elim (last_with key_of key xs) [
  | some later ↦ some later
  | none ↦ if key_of x == key then some x else none
]

module _ {A F : Type 0} where
  -- a loop that appends the changes of each element
  abbrev pub changes_of_each : (A → List (SchemaChange F)) → List A → List (SchemaChange F)
  changes_of_each changes [] = []
  changes_of_each changes (x ∷ xs) = changes x ++ changes_of_each changes xs

  -- a loop over the elements of `from` whose key `to` does not have
  abbrev pub deleted :
      (A → String) → (A → SchemaChange F) → (String → Bool) → List A → List (SchemaChange F)
  deleted key_of deletion kept l =
      changes_of_each (λ x. if not (kept (key_of x)) then deletion x ∷ [] else []) l

abbrev pub same_order : List String → List String → Bool
same_order [] [] = true
same_order (a ∷ as') (b ∷ bs) = a == b && same_order as' bs
same_order _ _ = false

-- the members of `old` that `next` does not have
abbrev pub missing_from : List String → List String → List String
missing_from [] next = []
missing_from (v ∷ old) next =
    if contains next v then missing_from old next else v ∷ missing_from old next

-- the loop of `firstDuplicateName`, with the names seen before
abbrev duplicate_among : List String → List String → String
duplicate_among seen [] = ""
duplicate_among seen (n ∷ names) = if contains seen n then n else duplicate_among (n ∷ seen) names

unfoldable pub first_duplicate_name : List String → String
first_duplicate_name names = duplicate_among [] names
