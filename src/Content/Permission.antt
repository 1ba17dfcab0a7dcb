-- ===== src/Content/Permission.antt =====
-- internal/cms/content/domain/type_permission.go and field_permission.go: which membership roles
-- may touch the entries of a content type, and which keys of them.
pub mod Guards
pub mod Writes
pub mod Reads
use saas_forge.Base.{
  String, Bool, true, false, List, [], ◌∷◌, ◌||◌, ◌==◌, string_eq, contains, not, if◌then◌else◌,
  Option, some, none,
}

-- The members of a `Field` that the permissions read.
pub record Field : Type 0 where
  pub key : String
  pub required : Bool
  pub read_roles : List String
  pub write_roles : List String

-- The members of a `ContentType` that the permissions read.
pub record ContentType : Type 0 where
  pub name : String
  pub fields : List Field
  pub read_roles : List String
  pub write_roles : List String
  pub own_only_roles : List String

-- `len(list) == 0`
abbrev pub is_empty {ℓ} : {A : Type ℓ} → List A → Bool
is_empty [] = true
is_empty (_ ∷ _) = false

abbrev pub field_by_key : List Field → String → Option Field
field_by_key [] k = none
field_by_key (f ∷ fs) k = if f.key == k then some f else field_by_key fs k

unfoldable pub role_allowed : List String → String → Bool
role_allowed list tenant_role = if is_empty list then true else contains list tenant_role

unfoldable pub entries_readable_by : ContentType → String → Bool
unfolding role_allowed
entries_readable_by ct role = role_allowed ct.read_roles role

unfoldable pub entries_writable_by : ContentType → String → Bool
unfolding role_allowed
entries_writable_by ct role = role_allowed ct.write_roles role

-- An empty list confines nobody.
unfoldable pub confines_to_own : ContentType → String → Bool
confines_to_own ct role = contains ct.own_only_roles role

unfoldable pub restricted_data : ContentType → Bool
restricted_data ct =
    not (is_empty ct.read_roles)
    || not (is_empty ct.write_roles)
    || not (is_empty ct.own_only_roles)

unfoldable pub readable_by : Field → String → Bool
unfolding role_allowed
readable_by f role = role_allowed f.read_roles role

unfoldable pub writable_by : Field → String → Bool
unfolding role_allowed
writable_by f role = role_allowed f.write_roles role

unfoldable pub restricted : Field → Bool
restricted f = not (is_empty f.read_roles) || not (is_empty f.write_roles)
