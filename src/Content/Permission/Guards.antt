-- ===== src/Content/Permission/Guards.antt =====
-- internal/cms/content/service/type_permission.go and field_permission.go: the guards that the
-- content service runs before it reads or writes.
use saas_forge.Base.{
  ◌++◌, is_some, ℕ, String, Bool, true, false, List, [], ◌∷◌, ◌||◌, ◌&&◌, ◌==◌, string_eq, nat_eq,
  contains, not, if◌then◌else◌, Option, some, none,
}
use saas_forge.Errors.{Err, Result, ok, err, ◌>>=◌}
use saas_forge.Authn.{Subject, responsible_user_id}
use saas_forge.Tenant.Roles.{valid_role}
use saas_forge.Content.Permission.{
  Field, ContentType, is_empty, field_by_key, entries_readable_by, entries_writable_by,
  confines_to_own, readable_by, writable_by, restricted,
}

-- What `normalizeRoleList` returns: the list, or the offending role.
pub data Roles : Type 0 where
  listed : List String → Roles
  unknown duplicate : String → Roles

-- `strings.TrimSpace` and `sort.Strings` are the library's.
module _ (trim_space : String → String) (sort_strings : List String → List String) where
  -- the loop; `out` is kept in order of appearance, and `seen` holds what `out` does
  normalize_loop : List String → List String → Roles
  normalize_loop out [] = if is_empty out then listed [] else listed (sort_strings out)
  normalize_loop out (r ∷ rest) =
      let role = trim_space r in
      let skip = normalize_loop out rest in
      let keep = normalize_loop (out ++ (role ∷ [])) rest in
      if role == ""
      then skip
      else if not (valid_role role)
      then unknown role
      else if contains out role
      then duplicate role
      else keep

  unfoldable pub normalize_role_list : List String → Roles
  unfolding normalize_loop
  normalize_role_list roles = normalize_loop [] roles

  abbrev or_role_error : String → Roles → Result (List String)
  or_role_error name (listed out) = ok out
  or_role_error name (unknown role) = err (Err.role_unknown name role)
  or_role_error name (duplicate role) = err (Err.role_duplicate name role)

  -- `normalizeTypeRoles`, and `normalizeRoles` for a field: `name` is the type's or the field's
  unfoldable pub normalize_roles : String → List String → Result (List String)
  unfolding normalize_role_list
  normalize_roles name roles = or_role_error name (normalize_role_list roles)

unfoldable pub can_read_type : ContentType → Subject → Bool
unfolding entries_readable_by
can_read_type ct sub =
    if is_empty ct.read_roles
    then true
    else if sub.public_delivery
    then false
    else entries_readable_by ct sub.tenant_role

unfoldable pub can_write_type : ContentType → Subject → Bool
unfolding can_read_type entries_writable_by
can_write_type ct sub =
    if not (can_read_type ct sub) then false else entries_writable_by ct sub.tenant_role

-- the loop of `effectiveTypeWriteRoles` and of `effectiveWriteRoles`
abbrev pub keep_listed : List String → List String → List String
keep_listed readable [] = []
keep_listed readable (r ∷ rest) =
    let kept = keep_listed readable rest in if contains readable r then r ∷ kept else kept

abbrev effective_roles : List String → List String → List String
effective_roles read_roles write_roles =
    if is_empty read_roles
    then write_roles
    else if is_empty write_roles
    then read_roles
    else keep_listed read_roles write_roles

unfoldable pub effective_type_write_roles : ContentType → List String
effective_type_write_roles ct = effective_roles ct.read_roles ct.write_roles

unfoldable pub guard_type_read : ContentType → Subject → Result (Unit {0})
unfolding can_read_type
guard_type_read ct sub =
    if can_read_type ct sub then ok tt else err (Err.type_read_forbidden ct.name ct.read_roles)

unfoldable pub guard_type_write : ContentType → Subject → Result (Unit {0})
unfolding can_write_type effective_type_write_roles
guard_type_write ct sub =
    if can_write_type ct sub
    then ok tt
    else err (Err.type_write_forbidden ct.name (effective_type_write_roles ct))

-- `none`: the caller is not confined.
unfoldable pub confined_author : ContentType → Subject → Option ℕ
unfolding confines_to_own responsible_user_id
confined_author ct sub =
    if sub.public_delivery || not (confines_to_own ct sub.tenant_role)
    then none
    else some (responsible_user_id sub)

-- The last argument is the entry's `CreatedBy`.
unfoldable pub guard_owned : ContentType → Subject → Option ℕ → Result (Unit {0})
unfolding confined_author
guard_owned ct sub created_by = elim (confined_author ct sub) [
  | none ↦ ok tt
  | some author ↦ elim created_by [
    | none ↦ err Err.not_found
    | some creator ↦ if creator == author then ok tt else err Err.not_found
  ]
]

-- internal/cms/content/service/dto.go: `EntryAudience`; its zero value is never produced.
pub data EntryAudience : Type 0 where
  audience_admin audience_delivery audience_preview : EntryAudience

unfoldable pub audience_for : Subject → EntryAudience
audience_for sub =
    if sub.public_delivery
    then (if is_some sub.preview_entry_id then audience_preview else audience_delivery)
    else audience_admin

abbrev is_preview : EntryAudience → Bool
is_preview audience_preview = true
is_preview _ = false

unfoldable pub guard_preview_collection : Subject → Result (Unit {0})
unfolding audience_for
guard_preview_collection sub =
    if is_preview (audience_for sub) then err Err.preview_scope_exceeded else ok tt

unfoldable pub can_read_field : Field → Subject → Bool
unfolding readable_by
can_read_field f sub =
    if is_empty f.read_roles
    then true
    else if sub.public_delivery
    then false
    else readable_by f sub.tenant_role

unfoldable pub can_write_field : Field → Subject → Bool
unfolding can_read_field writable_by
can_write_field f sub = if not (can_read_field f sub) then false else writable_by f sub.tenant_role

unfoldable pub effective_write_roles : Field → List String
effective_write_roles f = effective_roles f.read_roles f.write_roles

unfoldable pub unreadable_keys : List Field → Subject → List String
unreadable_keys [] sub = []
unreadable_keys (f ∷ fs) sub =
    let rest = unreadable_keys fs sub in if can_read_field f sub then rest else f.key ∷ rest

unfoldable pub any_restricted : List Field → Bool
unfolding restricted
any_restricted [] = false
any_restricted (f ∷ fs) = restricted f || any_restricted fs

-- the loop of `guardRequiredWritable`
unfoldable pub guard_required_writable : List Field → Subject → Result (Unit {0})
guard_required_writable [] sub = ok tt
guard_required_writable (f ∷ fs) sub =
    let rest = guard_required_writable fs sub in
    if f.required && not (can_write_field f sub)
    then err (Err.field_required_not_writable f.key (effective_write_roles f))
    else rest

-- the loop of `guardWritableKeys`; a key that names no field is left to the validation
unfoldable pub check_keys : List Field → Subject → List String → Result (Unit {0})
check_keys fields sub [] = ok tt
check_keys fields sub (k ∷ ks) =
    let rest = check_keys fields sub ks in
    elim (field_by_key fields k) [
      | none ↦ rest
      | some f ↦
          if not (can_write_field f sub)
          then err (Err.field_write_forbidden k (effective_write_roles f))
          else rest
    ]

-- A document is what `json.Unmarshal` into a map gives: keys with raw values, no key twice.
abbrev pub Doc : Type 0
Doc = List (String × String)

abbrev pub lookup_key : String → Doc → Option String
lookup_key k [] = none
lookup_key k ((j, v) ∷ doc) = if j == k then some v else lookup_key k doc

-- `delete(doc, k)`
abbrev pub delete_key : String → Doc → Doc
delete_key k [] = []
delete_key k ((j, v) ∷ doc) = let rest = delete_key k doc in if j == k then rest else (j, v) ∷ rest

unfoldable pub delete_keys : List String → Doc → Doc
delete_keys [] doc = doc
delete_keys (k ∷ ks) doc = delete_keys ks (delete_key k doc)

abbrev keys : Doc → List String
keys [] = []
keys ((j, _) ∷ doc) = j ∷ keys doc

-- `json.Unmarshal` and `json.Marshal` on objects, and the sort, are the library's; a raw value is
-- a text, and the empty one is an absent value.
module _ (unmarshal : String → Option Doc) (marshal : Doc → Option String)
    (sort_strings : List String → List String) where
  unfoldable pub strip_keys : String → List String → String
  unfolding delete_keys
  strip_keys raw unreadable =
      if is_empty unreadable || raw == "" then raw else elim (unmarshal raw) [
        | none ↦ "{}"
        | some doc ↦ elim (marshal (delete_keys unreadable doc)) [ none ↦ "{}" | some out ↦ out ]
      ]

  unfoldable pub payload_keys : String → Result (List String)
  payload_keys raw = if raw == "" then ok [] else elim (unmarshal raw) [
    | none ↦ err Err.payload_invalid
    | some doc ↦ ok (sort_strings (keys doc))
  ]

  unfoldable pub guard_writable_keys : ContentType → Subject → String → Result (Unit {0})
  unfolding any_restricted payload_keys check_keys
  guard_writable_keys ct sub payload =
      if not (any_restricted ct.fields)
      then ok tt
      else payload_keys payload >>= λ ks. check_keys ct.fields sub ks
