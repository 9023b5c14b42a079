-- ===== src/Role/Permissions.antt =====
-- The permissions that a role holds, by name.
-- No two permissions of the list have one name.
use nestjs_microservice_boil.Base.{
  Option-cases, ===_refl, ap, inl, inr, filter, Text, ◌===◌, ===_iff, ◌≡◌, refl, not, none, some,
  List, [], ◌∷◌, ◌++◌, arith, if◌then◌else◌,
}
use nestjs_microservice_boil.Permission.{PermissionEntity}
use nestjs_microservice_boil.Role.{add_permission, find_name, remove_permission_by_name, RoleEntity}

abbrev pub HasDistinctNames : List PermissionEntity → Type 0
HasDistinctNames [] = Unit
HasDistinctNames (q ∷ qs) = (find_name q.name qs ≡ none) × HasDistinctNames qs

===_comm : (s t : Text) → (s === t) ≡ (t === s)
===_comm s t = ground (arith, ===_iff s t, ===_iff t s)

find_name-append :
    (n : Text) (qs : List PermissionEntity) (q : PermissionEntity)
    → find_name n qs ≡ none
    → find_name n (qs ++ q ∷ []) ≡ (if q.name === n then some q else none)
unfolding find_name
find_name-append n [] q h = refl
find_name-append n (r ∷ qs) q h = ground (arith, find_name-append n qs q)

find_name-append_of_some :
    (n : Text) (qs : List PermissionEntity) (q r : PermissionEntity)
    → find_name n qs ≡ some r
    → find_name n (qs ++ q ∷ []) ≡ some r
unfolding find_name
find_name-append_of_some n [] q r h = cc
find_name-append_of_some n (s ∷ qs) q r h = ground (arith, find_name-append_of_some n qs q r)

HasDistinctNames-append :
    (qs : List PermissionEntity) (q : PermissionEntity)
    → HasDistinctNames qs
    → find_name q.name qs ≡ none
    → HasDistinctNames (qs ++ q ∷ [])
HasDistinctNames-append [] q h k = (unfold find_name in refl, tt)
HasDistinctNames-append (r ∷ qs) q (new, h) k = (
  unfold find_name in ground (arith, find_name-append r.name qs q, ===_comm r.name q.name),
  HasDistinctNames-append qs q h (unfold find_name in ground arith),
)

pub add_permission_found :
    (q r : PermissionEntity) (role : RoleEntity)
    → find_name q.name role.permissions ≡ some r
    → add_permission q role ≡ role
unfolding add_permission
add_permission_found q r role e = rw (e, add_permission) refl

pub add_permission_new :
    (q : PermissionEntity) (role : RoleEntity)
    → find_name q.name role.permissions ≡ none
    → add_permission q role ≡ record role { permissions = role.permissions ++ q ∷ [] }
unfolding add_permission
add_permission_new q role e = rw (e, add_permission) refl

find_name-append_self :
    (qs : List PermissionEntity) (q : PermissionEntity)
    → find_name q.name qs ≡ none
    → find_name q.name (qs ++ q ∷ []) ≡ some q
find_name-append_self qs q h = ground (arith, find_name-append q.name qs q h, ===_refl q.name)

-- Adding a permission keeps the names of the role distinct. The role then has a permission of that
-- name, the one it had if it had one, and it has every permission that it had before.
pub add_permission_lem :
    (q : PermissionEntity) (role : RoleEntity)
    → HasDistinctNames role.permissions
    → HasDistinctNames (add_permission q role).permissions
      × ((r : PermissionEntity) × (find_name q.name (add_permission q role).permissions ≡ some r))
      × ((n : Text) (r : PermissionEntity)
          → find_name n role.permissions ≡ some r
          → find_name n (add_permission q role).permissions ≡ some r)
add_permission_lem q role h = elim (Option-cases (find_name q.name role.permissions)) [
  | inr (r, e) ↦ rw (add_permission_found q r role e) (h, (r, e), λ n s k. k)
  | inl e ↦ rw (add_permission_new q role e) (
    HasDistinctNames-append role.permissions q h e,
    (q, find_name-append_self role.permissions q e),
    λ n s k. find_name-append_of_some n role.permissions q s k,
  )
]

-- Adding a permission a second time changes nothing.
add_permission_idempotent :
    (q : PermissionEntity) (role : RoleEntity)
    → add_permission q (add_permission q role) ≡ add_permission q role
add_permission_idempotent q role = elim (Option-cases (find_name q.name role.permissions)) [
  | inr (r, e) ↦ ap (add_permission q) (add_permission_found q r role e)
  | inl e ↦
      rw (add_permission_new q role e)
        (add_permission_found q q _ (find_name-append_self role.permissions q e))
]

find_name-filter :
    (n m : Text) (qs : List PermissionEntity)
    → find_name m (filter (λ q. not (q.name === n)) qs) ≡ (if n === m then none else find_name m qs)
unfolding find_name
find_name-filter n m [] = ground arith
find_name-filter n m (q ∷ qs) =
    ground (arith, find_name-filter n m qs, ===_iff q.name n, ===_iff q.name m, ===_iff n m)

-- Once a name has been removed the role has no permission of that name, and what it finds under
-- any other name is what it found before.
pub find_name-remove_permission_by_name :
    (n m : Text) (role : RoleEntity)
    → find_name m (remove_permission_by_name n role).permissions
      ≡ (if n === m then none else find_name m role.permissions)
unfolding remove_permission_by_name
find_name-remove_permission_by_name n m role = find_name-filter n m role.permissions
