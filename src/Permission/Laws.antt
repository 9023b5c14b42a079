-- ===== src/Permission/Laws.antt =====
-- What the use cases on permissions guarantee.
use nestjs_microservice_boil.Base.{
  ℕ, Text, ◌≡◌, refl, true, Option, none, some, [], ◌∷◌, ◌++◌, arith, includes, List, ◌⊎◌, inl, inr,
}
use nestjs_microservice_boil.Exception.{
  ok, Result, zod_error, Exception, err, api, conflict, listing,
}
use nestjs_microservice_boil.Exec.{World, info, ◌>>=◌}
use nestjs_microservice_boil.Repository.{Repository, by_name, by_id}
use nestjs_microservice_boil.Platform.{Platform, CaseLaws}
use nestjs_microservice_boil.Permission.Names.{to_object-construct, construct-fields}
use nestjs_microservice_boil.Permission.{
  PermissionEntity, normalize_name, parse_name, parse_id, PermissionObject, parse, shape, object,
  empty,
}
use nestjs_microservice_boil.Permission.Usecases.{
  create, delete, update, get_by_id, refuse_taken_name,
}
use nestjs_microservice_boil.Entity.{value, to_object, deactivate, merge, construct}
use nestjs_microservice_boil.Exec.Clean.{FailsCleanly, clean_rules, Reads}

module _ {D : Type 0} (p : Platform) (repository : Repository D PermissionEntity) where
  -- What `create` did, where it constructed an entity.
  created :
      CaseLaws p.lower
      → (uuid : Text) (now : ℕ) (raw : Text) (w after : World D) (out : Option PermissionEntity)
        (c : Result PermissionEntity)
      → construct
          (shape p)
          now
          (record empty { id = some uuid; name = some (normalize_name p raw) })
        ≡ c
      → create p repository uuid now (some raw) w ≡ (ok out, after)
      → (e : PermissionEntity) × (out ≡ some e) × (e.id ≡ uuid) × (e.name ≡ normalize_name p raw)
  unfolding create ◌>>=◌ parse_name
  created laws uuid now raw w after out (ok e) c h =
      let same = to_object-construct p laws now _ e c in
      let (id, name) = construct-fields p laws now uuid raw e c in
      (e, ground (arith, same, c, h), id, name)
  created laws uuid now raw w after out (err x) c h = absurd (ground (arith, c, h))

  -- Where lower-casing obeys CaseLaws: a permission is created only under a name that contains ":"
  -- once it is normalised, and that no stored permission has. The object written is the one
  -- returned: it has the new id and that normalised name. One message is logged.
  pub create-unused_name :
      CaseLaws p.lower
      → (uuid : Text) (now : ℕ) (name : Option Text) (w after : World D)
        (out : Option PermissionEntity)
      → create p repository uuid now name w ≡ (ok out, after)
      → (raw : Text) × (name ≡ some raw)
        × (includes b':' (normalize_name p raw) ≡ true)
        × (repository.find_one (by_name (normalize_name p raw)) w.db ≡ ok none)
        × ((e : PermissionEntity) × (out ≡ some e)
            × (e.id ≡ uuid)
            × (e.name ≡ normalize_name p raw))
        × (after.db ≡ (repository.create out w.db).1)
        × (after.effects ≡ w.effects ++ info "permission created." ∷ [])
  unfolding create ◌>>=◌ parse_name
  create-unused_name laws uuid now (some raw) w after out h = (
    raw,
    refl,
    ground arith,
    ground arith,
    created laws uuid now raw w after out _ refl h,
    ground arith,
    ground arith,
  )
  create-unused_name laws uuid now none w after out h = cc

  -- A write of the repository threw `e` and left the database as `d'`.
  abbrev pub FailedWrite : Exception → D → D → Type 0
  FailedWrite e d d' =
      (doc : Option PermissionEntity) × ((repository.create doc d ≡ (err e, d'))
        ⊎ ((id : Text) × (repository.update_one (by_id id) doc d ≡ (err e, d'))))

  create_failed :
      (doc : Option PermissionEntity) (d d' : D) (e : Exception)
      → repository.create doc d ≡ (err e, d')
      → FailedWrite e d d'
  create_failed doc d d' e h = (doc, inl h)

  update_failed :
      (id : Text) (doc : Option PermissionEntity) (d d' : D) (e : Exception)
      → repository.update_one (by_id id) doc d ≡ (err e, d')
      → FailedWrite e d d'
  update_failed id doc d d' e h = (doc, inr (id, h))

  refuse_taken_name-Reads :
      (name : Option Text) (id : Text) → Reads (refuse_taken_name p repository name id)
  unfolding refuse_taken_name
  refuse_taken_name-Reads none id = search clean_rules
  refuse_taken_name-Reads (some name) id = search clean_rules depth 9

  update-FailsCleanly :
      (now : ℕ) (o : PermissionObject) → FailsCleanly FailedWrite (update p repository now o)
  unfolding update
  update-FailsCleanly now o = search (clean_rules, update_failed, refuse_taken_name-Reads) depth 20

  -- A use case on permissions that throws has logged nothing, and has left the database as it was
  -- unless what it throws is the failure of its one write. Reading a permission changes nothing.
  pub permission_usecases-FailsCleanly :
      (uuid : Text) (now : ℕ) (name id : Option Text) (o : PermissionObject)
      → FailsCleanly FailedWrite (create p repository uuid now name)
        × FailsCleanly FailedWrite (delete p repository now id)
        × FailsCleanly FailedWrite (update p repository now o)
        × Reads (get_by_id p repository now id)
  unfolding create delete get_by_id
  permission_usecases-FailsCleanly uuid now name id o = (
    search (clean_rules, create_failed) depth 20,
    search (clean_rules, create_failed) depth 20,
    update-FailsCleanly now o,
    search clean_rules depth 20,
  )

  -- A permission that some role has is not deleted: the call is refused with a conflict that names
  -- the roles, and nothing is written.
  pub delete-conflict_roles :
      (now : ℕ) (id : Text) (w : World D) (found : PermissionEntity) (role : Text)
      (roles : List Text)
      → p.is_uuid id ≡ true
      → repository.find_one_with_relation (by_id id) w.db ≡ ok (some found)
      → found.roles ≡ some (role ∷ roles)
      → delete p repository now (some id) w
        ≡ (err (api conflict (listing "permissionHasAssociationWithRole: " ", " (role ∷ roles))), w)
  unfolding delete ◌>>=◌ parse_id
  delete-conflict_roles now id w found role roles valid h r = ground arith

  -- A permission that no role has is written back with the time of the call as its date of
  -- deletion, and that object is returned.
  delete-stamped :
      (now : ℕ) (id : Text) (w after : World D) (found : PermissionEntity)
      (out : Option PermissionEntity)
      → repository.find_one_with_relation (by_id id) w.db ≡ ok (some found)
      → delete p repository now (some id) w ≡ (ok out, after)
      → ((found.roles ≡ none) ⊎ (found.roles ≡ some []))
        × (after ≡ record w { db = (repository.create out w.db).1 })
        × ((e : PermissionEntity) → out ≡ some e → e.stamps.deleted_at ≡ value now)
  unfolding delete ◌>>=◌ parse_id parse to_object deactivate
  delete-stamped now id w after found out k h = (ground arith, ground arith, λ e q. ground arith)

  -- What `update` constructs of what it found, and what it merges the input into.
  abbrev constructed : ℕ → Result (Option PermissionEntity) → Result PermissionEntity
  constructed now (ok (some old)) = construct (shape p) now (object old)
  constructed now _ = err zod_error

  abbrev merged : Result PermissionEntity → PermissionObject → Result PermissionEntity
  merged (ok e) o = merge (shape p) e o
  merged (err e) o = err e
