-- ===== src/Role.antt =====
-- core/role/entity/role.ts: the entity, its schema and its operations.
pub mod Permissions
pub mod Usecases
pub mod Changes
pub mod Written
pub mod Laws
use nestjs_microservice_boil.Base.{
  find, filter, Text, ◌===◌, trim, underscores, ◌/◌, not, Option, none, some, List, [], ◌∷◌, ◌++◌,
}
use nestjs_microservice_boil.Permission
use nestjs_microservice_boil.Permission.{PermissionEntity}
use nestjs_microservice_boil.Exception.{Result, ok, err, ◌>>=◌}
use nestjs_microservice_boil.Entity.{
  Shape, Stamps, no_stamps, over_option, or_else, assign_stamps, required,
}
use nestjs_microservice_boil.Platform.{Platform}

pub record RoleEntity : Type 0 where
  pub id : Text
  pub name : Text
  pub permissions : List PermissionEntity
  pub stamps : Stamps

pub record RoleObject : Type 0 where
  pub id : Option Text
  pub name : Option Text
  pub permissions : Option (List PermissionEntity)
  pub stamps : Stamps

abbrev pub empty : RoleObject
empty = record { id = none; name = none; permissions = none; stamps = no_stamps }

abbrev pub object : RoleEntity → RoleObject
object e = record {
  id = some e.id;
  name = some e.name;
  permissions = some e.permissions;
  stamps = e.stamps;
}

abbrev pub spread : RoleObject → RoleObject → RoleObject
spread a b = record {
  id = over_option a.id b.id;
  name = over_option a.name b.name;
  permissions = over_option a.permissions b.permissions;
  stamps = assign_stamps a.stamps b.stamps;
}

abbrev pub assign : RoleEntity → RoleObject → RoleEntity
assign e o = record {
  id = or_else e.id o.id;
  name = or_else e.name o.name;
  permissions = or_else e.permissions o.permissions;
  stamps = assign_stamps e.stamps o.stamps;
}

-- `this.permissions.find((p) => p.name === name)`
unfoldable pub find_name : Text → List PermissionEntity → Option PermissionEntity
find_name name = find (λ q. q.name === name)

-- `addPermission`
unfoldable pub add_permission : PermissionEntity → RoleEntity → RoleEntity
unfolding find_name
add_permission permission role = elim (find_name permission.name role.permissions) [
  | some _ ↦ role
  | none ↦ record role { permissions = role.permissions ++ permission ∷ [] }
]

-- `removePermissionByName`
unfoldable pub remove_permission_by_name : Text → RoleEntity → RoleEntity
remove_permission_by_name name role = record role {
  permissions = filter (λ q. not (q.name === name)) role.permissions;
}

module _ (p : Platform) where
  -- The transformation of `Name`: `value.trim().replace(/ /g, '_').toUpperCase()`.
  unfoldable pub normalize_name : Text → Text
  normalize_name s = p.upper (underscores (trim s))

  unfoldable pub parse_permissions : List PermissionEntity → Result (List PermissionEntity)
  parse_permissions [] = ok []
  parse_permissions (q ∷ qs) = do
    first ← Permission.parse p (Permission.object q)
    rest ← parse_permissions qs
    ok (first ∷ rest)

  -- `RoleEntitySchema`; a role with no `permissions` keeps the class's default, `[]`.
  unfoldable pub parse : RoleObject → Result RoleEntity
  unfolding normalize_name
  parse o = do
    raw_id ← required o.id
    id ← Permission.parse_id p raw_id
    name ← required o.name
    permissions ← parse_permissions (or_else [] o.permissions)
    ok (record {
      id = id;
      name = normalize_name name;
      permissions = permissions;
      stamps = o.stamps;
    })

  abbrev pub shape : Shape RoleObject RoleEntity
  shape = record {
    empty = empty;
    parse = parse;
    object = object;
    spread = spread;
    assign = assign;
    with_stamps = λ s e. record e { stamps = s };
    stamps = λ e. e.stamps;
  }
