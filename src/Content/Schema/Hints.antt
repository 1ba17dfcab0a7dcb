-- ===== src/Content/Schema/Hints.antt =====
-- internal/cms/content/domain/artifact_diff.go: the hint at a rename.
use saas_forge.Base.{
  String, Bool, true, false, List, [], ◌∷◌, some, ◌==◌, string_eq, not, if◌then◌else◌, ◌&&◌, ◌||◌,
  map,
}
use saas_forge.Content.Schema.Change.{
  SchemaChange, ChangeOp, add_field, add_component_field, delete_field, delete_component_field,
  rename,
}

abbrev is_add : ChangeOp → Bool
is_add add_field = true
is_add add_component_field = true
is_add _ = false

abbrev is_del : ChangeOp → Bool
is_del delete_field = true
is_del delete_component_field = true
is_del _ = false

module _ {F : Type 0} where
  -- `owner` in `withRenameHints`: a component or a type, by its name
  abbrev owner : SchemaChange F → Bool × String
  owner c = if not (c.component == "") then (true, c.component) else (false, c.type)

  abbrev same_owner : SchemaChange F → SchemaChange F → Bool
  same_owner c d =
      (if (owner c).0 then (owner d).0 else not (owner d).0) && (owner c).1 == (owner d).1

  -- `adds[owner(c)]` and `dels[owner(c)]`, by the test on the operation
  abbrev has_owner : (ChangeOp → Bool) → List (SchemaChange F) → SchemaChange F → Bool
  has_owner test [] c = false
  has_owner test (d ∷ changes) c = test d.op && same_owner d c || has_owner test changes c

  abbrev pub with_hint : List (SchemaChange F) → SchemaChange F → SchemaChange F
  with_hint changes c =
      if (is_add c.op || is_del c.op) && has_owner is_add changes c && has_owner is_del changes c
      then record c { hint = some rename }
      else c

  unfoldable pub with_rename_hints : List (SchemaChange F) → List (SchemaChange F)
  with_rename_hints changes = map (with_hint changes) changes
