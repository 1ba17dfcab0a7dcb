-- ===== src/Tenant/Owners.antt =====
-- The owners of a tenant under the two statements that change memberships.
use saas_forge.Base.{
  leb, ℕ, ◌+◌, ◌≤◌, String, ◌≡◌, ◌≢◌, refl, Bool, false, List, [], ◌∷◌, ◌++◌, ◌&&◌, ◌==◌, string_eq,
  nat_eq, not, if◌then◌else◌, some, none, count-append, arith, Bool-cases, inl, inr,
}
use saas_forge.Tenant.Roles.{owner}
use saas_forge.Tenant.Tables.{
  Membership, Store, is_member, is_owner_of, find_member, owner_count, set_role, delete_member,
}

-- The primary key `(user_id, tenant_id)` of `memberships`.
abbrev pub IsKeyed : List Membership → Type 0
IsKeyed [] = Unit
IsKeyed (m ∷ ms) = (find_member m.tenant_id m.user_id ms ≡ none) × IsKeyed ms

-- The rows have their key, and the tenant has an owner.
pub record IsOwned (t : ℕ) (s : Store) : Type 0 where
  pub keyed : IsKeyed s.memberships
  pub owned : 1 ≤ owner_count t s.memberships

pub find_member-set_role :
    (t u t' u' : ℕ) (r : String) (ms : List Membership)
    → find_member t u ms ≡ none
    → find_member t u (set_role t' u' r ms) ≡ none
find_member-set_role t u t' u' r [] h = refl
find_member-set_role t u t' u' r (m ∷ ms) h = ground (arith, find_member-set_role t u t' u' r ms)

pub find_member-delete :
    (t u t' u' : ℕ) (ms : List Membership)
    → find_member t u ms ≡ none
    → find_member t u (delete_member t' u' ms) ≡ none
find_member-delete t u t' u' [] h = refl
find_member-delete t u t' u' (m ∷ ms) h = ground (arith, find_member-delete t u t' u' ms)

pub find_member-append :
    (t u : ℕ) (ms : List Membership) (m : Membership)
    → find_member t u (ms ++ (m ∷ [])) ≡ elim (find_member t u ms) [
      | none ↦ if is_member t u m then some m else none
      | some x ↦ some x
    ]
find_member-append t u [] m = refl
find_member-append t u (x ∷ ms) m = ground (arith, find_member-append t u ms m)

pub set_role-IsKeyed :
    (t u : ℕ) (r : String) (ms : List Membership) → IsKeyed ms → IsKeyed (set_role t u r ms)
set_role-IsKeyed t u r [] h = tt
set_role-IsKeyed t u r (m ∷ ms) h =
    ground (
      arith,
      set_role-IsKeyed t u r ms h.1,
      find_member-set_role m.tenant_id m.user_id t u r ms h.0,
    )

pub delete_member-IsKeyed :
    (t u : ℕ) (ms : List Membership) → IsKeyed ms → IsKeyed (delete_member t u ms)
delete_member-IsKeyed t u [] h = tt
delete_member-IsKeyed t u (m ∷ ms) h =
    ground
      (arith, delete_member-IsKeyed t u ms h.1, find_member-delete m.tenant_id m.user_id t u ms h.0)

pub append-IsKeyed :
    (ms : List Membership) (m : Membership)
    → IsKeyed ms
    → find_member m.tenant_id m.user_id ms ≡ none
    → IsKeyed (ms ++ (m ∷ []))
append-IsKeyed [] m h new = (refl, tt)
append-IsKeyed (x ∷ ms) m h new =
    ground (arith, append-IsKeyed ms m h.1, find_member-append x.tenant_id x.user_id ms m)

-- A row that is not there is not touched.
set_role_absent :
    (t u : ℕ) (r : String) (ms : List Membership)
    → find_member t u ms ≡ none
    → set_role t u r ms ≡ ms
set_role_absent t u r [] h = refl
set_role_absent t u r (m ∷ ms) h = ground (arith, set_role_absent t u r ms)

delete_member_absent :
    (t u : ℕ) (ms : List Membership) → find_member t u ms ≡ none → delete_member t u ms ≡ ms
delete_member_absent t u [] h = refl
delete_member_absent t u (m ∷ ms) h = ground (arith, delete_member_absent t u ms)

abbrev pub tally : Bool → ℕ
tally b = if b then 1 else 0

module _ (t u : ℕ) where
  -- Changing one member's role moves the owner count of the tenant by what that row counts for.
  pub owner_count-set_role :
      (r : String) (ms : List Membership) (m : Membership)
      → IsKeyed ms
      → find_member t u ms ≡ some m
      → owner_count t (set_role t u r ms) + tally (m.role == owner)
        ≡ owner_count t ms + tally (r == owner)
  unfolding owner_count
  owner_count-set_role r [] m keyed found = ground arith
  owner_count-set_role r (x ∷ ms) m keyed found = elim (Bool-cases (is_member t u x)) [
    | inl here ↦ ground (arith, set_role_absent t u r ms)
    | inr there ↦ ground (arith, owner_count-set_role r ms m keyed.1)
  ]

  -- Removing one member lowers the owner count by what that row counts for.
  pub owner_count-delete_member :
      (ms : List Membership) (m : Membership)
      → IsKeyed ms
      → find_member t u ms ≡ some m
      → owner_count t (delete_member t u ms) + tally (m.role == owner) ≡ owner_count t ms
  unfolding owner_count
  owner_count-delete_member [] m keyed found = ground arith
  owner_count-delete_member (x ∷ ms) m keyed found = elim (Bool-cases (is_member t u x)) [
    | inl here ↦ ground (arith, delete_member_absent t u ms)
    | inr there ↦ ground (arith, owner_count-delete_member ms m keyed.1)
  ]

  -- The owners of another tenant are not touched.
  pub owner_count-set_role_ne :
      (t' : ℕ) (r : String) (ms : List Membership)
      → t ≢ t'
      → owner_count t' (set_role t u r ms) ≡ owner_count t' ms
  unfolding owner_count
  owner_count-set_role_ne t' r [] ne = refl
  owner_count-set_role_ne t' r (x ∷ ms) ne = ground (arith, owner_count-set_role_ne t' r ms)

  pub owner_count-delete_member_ne :
      (t' : ℕ) (ms : List Membership)
      → t ≢ t'
      → owner_count t' (delete_member t u ms) ≡ owner_count t' ms
  unfolding owner_count
  owner_count-delete_member_ne t' [] ne = refl
  owner_count-delete_member_ne t' (x ∷ ms) ne = ground (arith, owner_count-delete_member_ne t' ms)

pub owner_count-append :
    (t : ℕ) (ms : List Membership) (m : Membership)
    → owner_count t (ms ++ (m ∷ [])) ≡ owner_count t ms + tally (is_owner_of t m)
unfolding owner_count
owner_count-append t ms m = omega (arith, count-append (is_owner_of t) ms (m ∷ []))

-- A tenant that has an owner keeps one when a member's role is set, unless the member is its last
-- owner and the new role another one.
pub set_role-IsOwned :
    (t t' u : ℕ) (r : String) (s : Store) (m : Membership)
    → IsOwned t s
    → find_member t' u s.memberships ≡ some m
    → (m.role == owner && not (r == owner) && leb (owner_count t' s.memberships) 1) ≡ false
    → IsOwned t (record s { memberships = set_role t' u r s.memberships })
set_role-IsOwned t t' u r s m h found safe = elim (Bool-cases (t' == t)) [
  | inl same ↦ ground (
    arith,
    set_role-IsKeyed t' u r s.memberships h.keyed,
    owner_count-set_role t' u r s.memberships m h.keyed found,
  )
  | inr differs ↦ ground (
    arith,
    set_role-IsKeyed t' u r s.memberships h.keyed,
    owner_count-set_role_ne t' u t r s.memberships,
  )
]

pub delete_member-IsOwned :
    (t t' u : ℕ) (s : Store) (m : Membership)
    → IsOwned t s
    → find_member t' u s.memberships ≡ some m
    → (m.role == owner && leb (owner_count t' s.memberships) 1) ≡ false
    → IsOwned t (record s { memberships = delete_member t' u s.memberships })
delete_member-IsOwned t t' u s m h found safe = elim (Bool-cases (t' == t)) [
  | inl same ↦ ground (
    arith,
    delete_member-IsKeyed t' u s.memberships h.keyed,
    owner_count-delete_member t' u s.memberships m h.keyed found,
  )
  | inr differs ↦ ground (
    arith,
    delete_member-IsKeyed t' u s.memberships h.keyed,
    owner_count-delete_member_ne t' u t s.memberships,
  )
]

-- A new membership keeps the key if the user was no member.
pub add_membership-IsOwned :
    (t : ℕ) (s : Store) (m : Membership)
    → IsOwned t s
    → find_member m.tenant_id m.user_id s.memberships ≡ none
    → IsOwned t (record s { memberships = s.memberships ++ (m ∷ []) })
add_membership-IsOwned t s m h new =
    ground (arith, append-IsKeyed s.memberships m h.keyed new, owner_count-append t s.memberships m)
