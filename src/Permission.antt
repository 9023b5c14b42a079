-- ===== src/Permission.antt =====
-- core/permission/entity/permission.ts: the entity and its schema. The roles of a permission are
-- kept by name, which is all that the program reads of them.
pub mod Usecases
pub mod Names
pub mod Laws
use nestjs_microservice_boil.Base.{
  Text, Bool, Option, none, some, List, includes, trim, underscores,
}
use nestjs_microservice_boil.Exception.{Result, ok, err, ◌>>=◌, ◌>>◌}
use nestjs_microservice_boil.Platform.{Platform}
use nestjs_microservice_boil.Entity.{
  Stamps, no_stamps, over_option, or_else, assign_stamps, required, check, Shape,
}

pub record PermissionEntity : Type 0 where
  pub id : Text
  pub name : Text
  pub roles : Option (List Text)
  pub stamps : Stamps

-- A plain object with some of the fields.
pub record PermissionObject : Type 0 where
  pub id : Option Text
  pub name : Option Text
  pub roles : Option (List Text)
  pub stamps : Stamps

abbrev pub empty : PermissionObject
empty = record { id = none; name = none; roles = none; stamps = no_stamps }

abbrev pub object : PermissionEntity → PermissionObject
object e = record { id = some e.id; name = some e.name; roles = e.roles; stamps = e.stamps }

abbrev pub spread : PermissionObject → PermissionObject → PermissionObject
spread a b = record {
  id = over_option a.id b.id;
  name = over_option a.name b.name;
  roles = over_option a.roles b.roles;
  stamps = assign_stamps a.stamps b.stamps;
}

abbrev pub assign : PermissionEntity → PermissionObject → PermissionEntity
assign e o = record {
  id = or_else e.id o.id;
  name = or_else e.name o.name;
  roles = over_option e.roles o.roles;
  stamps = assign_stamps e.stamps o.stamps;
}

module _ (p : Platform) where
  -- The transformation of `Name`: `value.trim().replace(/ /g, '_').toLowerCase()`.
  unfoldable pub normalize_name : Text → Text
  normalize_name s = p.lower (underscores (trim s))

  -- `Name`, with its refinement `val.includes(':')`.
  unfoldable pub parse_name : Text → Result Text
  unfolding normalize_name
  parse_name s = do check (includes b':' (normalize_name s)); ok (normalize_name s)

  -- `ID`
  unfoldable pub parse_id : Text → Result Text
  parse_id s = do check (p.is_uuid s); ok s

  -- `PermissionEntitySchema`
  unfoldable pub parse : PermissionObject → Result PermissionEntity
  unfolding parse_id parse_name
  parse o = do
    raw_id ← required o.id
    raw_name ← required o.name
    id ← parse_id raw_id
    name ← parse_name raw_name
    ok (record { id = id; name = name; roles = o.roles; stamps = o.stamps })

  abbrev pub shape : Shape PermissionObject PermissionEntity
  shape = record {
    empty = empty;
    parse = parse;
    object = object;
    spread = spread;
    assign = assign;
    with_stamps = λ s e. record e { stamps = s };
    stamps = λ e. e.stamps;
  }
