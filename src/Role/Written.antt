-- ===== src/Role/Written.antt =====
-- What `RoleAddPermissionUsecase` writes: the role as it is.
use nestjs_microservice_boil.Base.{
  length, All, Text, ◌≡◌, ◌∙◌, refl, sym, true, some, List, [], ◌∷◌, ◌++◌, arith, ℕ, Option-cases,
  inl, inr,
}
use mathlib.Core.Path.{subst}
use nestjs_microservice_boil.Permission
use nestjs_microservice_boil.Permission.{PermissionEntity}
use nestjs_microservice_boil.Permission.Names.{parse-again, construct-again, parse_id-uuid}
use nestjs_microservice_boil.Platform.{Platform, CaseLaws}
use nestjs_microservice_boil.Platform.Names.{normalize_idempotent}
use nestjs_microservice_boil.Exception.{ok, bind-eq-ok}
use nestjs_microservice_boil.Role.{
  RoleEntity, RoleObject, find_name, add_permission, parse_permissions, parse, shape,
  normalize_name,
}
use nestjs_microservice_boil.Role.Permissions.{add_permission_new, add_permission_found}
use nestjs_microservice_boil.Role.Usecases.{resolve, add_all}
use nestjs_microservice_boil.Role.Changes.{resolve_stored, resolve_new}
use nestjs_microservice_boil.Entity.{construct, to_object, required, or_else}
use nestjs_microservice_boil.Entity.Construct.{construct-parse}

-- The schema of permissions accepts this one, and gives it back.
abbrev pub IsKept : Platform → PermissionEntity → Type 0
IsKept p q = Permission.parse p (Permission.object q) ≡ ok q

module _ (p : Platform) (lower : CaseLaws p.lower) (upper : CaseLaws p.upper) where
  parse_permissions-IsKept :
      (qs rs : List PermissionEntity) → parse_permissions p qs ≡ ok rs → All (IsKept p) rs
  unfolding parse_permissions
  parse_permissions-IsKept [] rs h =
      let same : [] ≡ rs = ground (arith, h) in subst (All (IsKept p)) same tt
  parse_permissions-IsKept (q ∷ qs) rs h =
      let (first, one, more) = bind-eq-ok (Permission.parse p (Permission.object q)) _ h in
      let (rest, two, made) = bind-eq-ok (parse_permissions p qs) _ more in
      let same : (first ∷ rest) ≡ rs = ground (arith, made) in
      subst (All (IsKept p)) same
        (parse-again p lower (Permission.object q) first one, parse_permissions-IsKept qs rest two)

  IsKept-parse_permissions :
      (qs : List PermissionEntity) → All (IsKept p) qs → parse_permissions p qs ≡ ok qs
  unfolding parse_permissions
  IsKept-parse_permissions [] h = refl
  IsKept-parse_permissions (q ∷ qs) (k, h) = rw (k, IsKept-parse_permissions qs h) refl

  append-IsKept :
      (qs : List PermissionEntity) (q : PermissionEntity)
      → All (IsKept p) qs
      → IsKept p q
      → All (IsKept p) (qs ++ q ∷ [])
  append-IsKept [] q h k = (k, tt)
  append-IsKept (x ∷ qs) q (a, h) k = (a, append-IsKept qs q h k)

  found-IsKept :
      (n : Text) (stored : List PermissionEntity) (q : PermissionEntity)
      → All (IsKept p) stored
      → find_name n stored ≡ some q
      → IsKept p q
  unfolding find_name
  found-IsKept n [] q h k = absurd (ground (arith, k))
  found-IsKept n (x ∷ stored) q (a, h) k = ground (arith, k, a, found-IsKept n stored q h)

  add_permission-IsKept :
      (q : PermissionEntity) (role : RoleEntity)
      → All (IsKept p) role.permissions
      → IsKept p q
      → All (IsKept p) (add_permission q role).permissions
  add_permission-IsKept q role h k = elim (Option-cases (find_name q.name role.permissions)) [
    | inl e ↦ rw (add_permission_new q role e) (append-IsKept role.permissions q h k)
    | inr (r, e) ↦ rw (add_permission_found q r role e) h
  ]

  add_permission-same :
      (q : PermissionEntity) (role : RoleEntity)
      → ((add_permission q role).id ≡ role.id) × ((add_permission q role).name ≡ role.name)
  unfolding add_permission
  add_permission-same q role = ground arith

  resolve-IsKept :
      (uuid n : Text) (now : ℕ) (stored : List PermissionEntity) (q : PermissionEntity)
      → All (IsKept p) stored
      → resolve p uuid now stored n ≡ ok q
      → IsKept p q
  resolve-IsKept uuid n now stored q h k = elim (Option-cases (find_name n stored)) [
    | inr (r, e) ↦
        let same : r ≡ q = ground (arith, resolve_stored p uuid now stored n r e, k) in
        subst (IsKept p) same (found-IsKept n stored r h e)
    | inl e ↦ construct-again p lower now _ q (sym (resolve_new p uuid now stored n e) ∙ k)
  ]

  -- The schema of roles gives this one back.
  pub record IsWhole (role : RoleEntity) : Type 0 where
    pub id : p.is_uuid role.id ≡ true
    pub name : normalize_name p role.name ≡ role.name
    pub permissions : All (IsKept p) role.permissions

  add_permission-IsWhole :
      (q : PermissionEntity) (role : RoleEntity)
      → IsWhole role
      → IsKept p q
      → IsWhole (add_permission q role)
  add_permission-IsWhole q role h k =
      let (i, n) = add_permission-same q role in
      record {
        id = rw i h.id;
        name = rw n h.name;
        permissions = add_permission-IsKept q role h.permissions k;
      }

  add_all-IsWhole :
      (uuid : ℕ → Text) (now : ℕ) (stored : List PermissionEntity) (names : List Text)
      (role after : RoleEntity)
      → All (IsKept p) stored
      → IsWhole role
      → add_all p uuid now stored names role ≡ ok after
      → IsWhole after
  unfolding add_all
  add_all-IsWhole uuid now stored [] role after h k e = subst IsWhole (ground (arith, e)) k
  add_all-IsWhole uuid now stored (n ∷ names) role after h k e =
      let (q, one, two) = bind-eq-ok (resolve p (uuid (length names)) now stored n) _ e in
      add_all-IsWhole uuid now stored names (add_permission q role) after h
        (add_permission-IsWhole q role k
          (resolve-IsKept (uuid (length names)) n now stored q h one))
        two

  parse-IsWhole : (o : RoleObject) (e : RoleEntity) → parse p o ≡ ok e → IsWhole e
  unfolding parse
  parse-IsWhole o e h =
      let (raw_id, a, h1) = bind-eq-ok (required o.id) _ h in
      let (id, b, h2) = bind-eq-ok (Permission.parse_id p raw_id) _ h1 in
      let (name, c, h3) = bind-eq-ok (required o.name) _ h2 in
      let (qs, d, h4) = bind-eq-ok (parse_permissions p (or_else [] o.permissions)) _ h3 in
      let made : RoleEntity = record {
        id = id;
        name = normalize_name p name;
        permissions = qs;
        stamps = o.stamps;
      } in
      let same : made ≡ e = ground (arith, h4) in
      subst IsWhole same (record {
        id = parse_id-uuid p lower raw_id id b;
        name = unfold normalize_name in normalize_idempotent upper name;
        permissions = parse_permissions-IsKept (or_else [] o.permissions) qs d;
      })

  construct-IsWhole :
      (now : ℕ) (o : RoleObject) (e : RoleEntity) → construct (shape p) now o ≡ ok e → IsWhole e
  construct-IsWhole now o e h =
      let (parsed, k, same) = construct-parse (shape p) now o e h in
      let v = parse-IsWhole o parsed k in
      rw (← same) (record { id = v.id; name = v.name; permissions = v.permissions })

  -- Such a role is its own plain object.
  pub to_object-IsWhole : (role : RoleEntity) → IsWhole role → to_object (shape p) role ≡ some role
  unfolding to_object parse Permission.parse_id
  to_object-IsWhole role h =
      let same = IsKept-parse_permissions role.permissions h.permissions in
      ground (arith, same, h.id, h.name)

  -- The role that is written has the permissions that the loop gave it.
  pub to_object-add_all :
      (uuid : ℕ → Text) (now : ℕ) (stored : List PermissionEntity) (names : List Text)
      (o : RoleObject) (entity role : RoleEntity)
      → All (IsKept p) stored
      → construct (shape p) now o ≡ ok entity
      → add_all p uuid now stored names entity ≡ ok role
      → to_object (shape p) role ≡ some role
  to_object-add_all uuid now stored names o entity role h c e =
      to_object-IsWhole role
        (add_all-IsWhole uuid now stored names entity role h (construct-IsWhole now o entity c) e)
