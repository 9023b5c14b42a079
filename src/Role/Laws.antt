-- ===== src/Role/Laws.antt =====
-- What the use cases on roles guarantee.
use nestjs_microservice_boil.Base.{
  ap, ◌∙◌, refl, Text, ℕ, ◌≡◌, Bool, true, Option, none, some, List, [], ◌∷◌, map, arith,
  if◌then◌else◌,
}
use nestjs_microservice_boil.Exec.{◌>>=◌, World}
use nestjs_microservice_boil.Permission
use nestjs_microservice_boil.Permission.{PermissionEntity, parse}
use nestjs_microservice_boil.Role
use nestjs_microservice_boil.Role.{RoleEntity, object, shape, Platform, find_name}
use nestjs_microservice_boil.Repository.{Repository, by_id}
use nestjs_microservice_boil.Exception.{Exception, err, ok, api, conflict, listing, Result}
use nestjs_microservice_boil.Role.Usecases.{
  delete_permissions, delete, get_by_id, add_permissions, PermissionsInput, remove_all, create,
}
use nestjs_microservice_boil.Entity.{construct, to_object, deactivate, value, Stamps}
use nestjs_microservice_boil.Exec.Clean.{FailsCleanly, Reads, clean_rules}
use nestjs_microservice_boil.Role.Changes.{removes, find_name-remove_all}

parse-stamps :
    (p : Platform) (before e : RoleEntity)
    → to_object (shape p) before ≡ some e
    → e.stamps ≡ before.stamps
unfolding to_object Role.parse Permission.parse_id
parse-stamps p before e h = ground (arith, h)

module _ {D : Type 0} (p : Platform) (role_repository : Repository D RoleEntity) where
  -- A write of the repository threw `e` and left the database as `d'`.
  abbrev pub FailedWrite : Exception → D → D → Type 0
  FailedWrite e d d' = (doc : Option RoleEntity) × (role_repository.create doc d ≡ (err e, d'))

  pub create_failed :
      (doc : Option RoleEntity) (d d' : D) (e : Exception)
      → role_repository.create doc d ≡ (err e, d')
      → FailedWrite e d d'
  create_failed doc d d' e h = (doc, h)

  -- A role that holds permissions is not deleted: the call is refused with a conflict that names
  -- them, and nothing is written.
  pub delete-conflict_permissions :
      (now : ℕ) (id : Text) (w : World D) (found : RoleEntity) (q : PermissionEntity)
      (qs : List PermissionEntity)
      → p.is_uuid id ≡ true
      → role_repository.find_by_id id w.db ≡ ok (some found)
      → found.permissions ≡ q ∷ qs
      → delete p role_repository now (some id) w ≡ (
        err (
            api conflict
              (listing "roleHasAssociationWithPermission: " "," (q.name ∷ map (λ r. r.name) qs))),
        w,
      )
  unfolding delete ◌>>=◌ Permission.parse_id
  delete-conflict_permissions now id w found q qs valid h r = ground arith

  deleted :
      (now : ℕ) (id : Text) (w after : World D) (found : RoleEntity) (out : Option RoleEntity)
      → role_repository.find_by_id id w.db ≡ ok (some found)
      → (r : Result RoleEntity) → construct (shape p) now (object found) ≡ r
      → delete p role_repository now (some id) w ≡ (ok out, after)
      → (entity : RoleEntity) × (to_object
            (shape p)
            (record entity { stamps = deactivate now entity.stamps })
          ≡ out)
  unfolding delete ◌>>=◌ Permission.parse_id
  deleted now id w after found out k (ok entity) c h = (entity, ground arith)
  deleted now id w after found out k (err x) c h = absurd (ground arith)

  -- A role without permissions is written back with the time of the call as its date of deletion,
  -- and that object is returned.
  delete-soft :
      (now : ℕ) (id : Text) (w after : World D) (found : RoleEntity) (out : Option RoleEntity)
      → role_repository.find_by_id id w.db ≡ ok (some found)
      → delete p role_repository now (some id) w ≡ (ok out, after)
      → (found.permissions ≡ [])
        × (after ≡ record w { db = (role_repository.create out w.db).1 })
        × ((e : RoleEntity) → out ≡ some e → e.stamps.deleted_at ≡ value now)
  unfolding delete ◌>>=◌ Permission.parse_id deactivate
  delete-soft now id w after found out k h =
      let (entity, same) =
        deleted now id w after found out k (construct (shape p) now (object found)) refl h in
      (
        ground arith,
        ground arith,
        λ e q.
            let new = record entity { stamps = deactivate now entity.stamps } in
            ap (λ (s : Stamps). s.deleted_at) (parse-stamps p new e (same ∙ q)),
      )

  module _ (permission_repository : Repository D PermissionEntity) where
    -- Creating and deleting a role, and changing its permissions, fail cleanly: what throws has
    -- logged nothing, and has left the database as it was unless it is the failure of the one
    -- write. Reading a role changes nothing.
    pub role_usecases-FailsCleanly :
        (uuid : ℕ → Text) (now : ℕ) (b : Bool) (name id : Option Text) (input : PermissionsInput)
        → FailsCleanly FailedWrite (create p role_repository (uuid 0) now b name)
          × FailsCleanly FailedWrite (delete p role_repository now id)
          × FailsCleanly FailedWrite
              (add_permissions p role_repository permission_repository uuid now input)
          × FailsCleanly FailedWrite
              (delete_permissions p role_repository permission_repository now input)
          × Reads (get_by_id p role_repository now id)
    unfolding create delete get_by_id add_permissions delete_permissions
    role_usecases-FailsCleanly uuid now b name id input = (
      search (clean_rules, create_failed) depth 20,
      search (clean_rules, create_failed) depth 20,
      search (clean_rules, create_failed) depth 20,
      search (clean_rules, create_failed) depth 20,
      search clean_rules depth 20,
    )

    -- After permissions have been deleted, the one write is of a role that has lost exactly the
    -- requested names that are stored permissions; every other permission of the role is kept.
    pub delete_permissions-ok :
        (now : ℕ) (id : Text) (names : List Text) (w after : World D)
        (stored : List PermissionEntity) (found entity : RoleEntity)
        → role_repository.find_one (by_id id) w.db ≡ ok (some found)
        → permission_repository.find_in names w.db ≡ ok stored
        → construct (shape p) now (object found) ≡ ok entity
        → delete_permissions p role_repository permission_repository now
            (record { id = some id; permissions = some names })
            w
          ≡ (ok tt, after)
        → (role : RoleEntity) × ((m : Text)
            → find_name m role.permissions
              ≡ (if removes stored names m then none else find_name m entity.permissions))
          × (after ≡ record w { db = (role_repository.create (to_object (shape p) role) w.db).1 })
    unfolding delete_permissions ◌>>=◌ Permission.parse_id
    delete_permissions-ok now id names w after stored found entity k s c h =
        (remove_all stored names entity, find_name-remove_all stored names entity, ground arith)
