-- ===== src/User.antt =====
-- core/user/entity/user.ts: the entity and its schema.
pub mod Password
pub mod Usecases
pub mod Sessions
pub mod Written
pub mod Laws
pub mod SessionLaws
use nestjs_microservice_boil.Base.{Text, Option, none, some, List, [], ◌∷◌}
use nestjs_microservice_boil.Exception.{◌>>=◌, ◌>>◌, Result, ok}
use nestjs_microservice_boil.Role
use nestjs_microservice_boil.Role.{RoleEntity}
use nestjs_microservice_boil.Entity.{
  no_stamps, or_else, over_option, Shape, Stamps, assign_stamps, check, required,
}
use nestjs_microservice_boil.Platform.{Platform}
use nestjs_microservice_boil.User.Password.{UserPasswordEntity}

pub record UserEntity : Type 0 where
  pub id : Text
  pub name : Text
  pub email : Text
  pub roles : List RoleEntity
  pub password : Option UserPasswordEntity
  pub stamps : Stamps

pub record UserObject : Type 0 where
  pub id : Option Text
  pub name : Option Text
  pub email : Option Text
  pub roles : Option (List RoleEntity)
  pub password : Option UserPasswordEntity
  pub stamps : Stamps

abbrev pub empty : UserObject
empty = record {
  id = none;
  name = none;
  email = none;
  roles = none;
  password = none;
  stamps = no_stamps;
}

abbrev pub object : UserEntity → UserObject
object e = record {
  id = some e.id;
  name = some e.name;
  email = some e.email;
  roles = some e.roles;
  password = e.password;
  stamps = e.stamps;
}

abbrev pub spread : UserObject → UserObject → UserObject
spread a b = record {
  id = over_option a.id b.id;
  name = over_option a.name b.name;
  email = over_option a.email b.email;
  roles = over_option a.roles b.roles;
  password = over_option a.password b.password;
  stamps = assign_stamps a.stamps b.stamps;
}

abbrev pub assign : UserEntity → UserObject → UserEntity
assign e o = record {
  id = or_else e.id o.id;
  name = or_else e.name o.name;
  email = or_else e.email o.email;
  roles = or_else e.roles o.roles;
  password = over_option e.password o.password;
  stamps = assign_stamps e.stamps o.stamps;
}

module _ (p : Platform) where
  -- `ID` and `Email`
  unfoldable pub parse_id : Text → Result Text
  parse_id s = do check (p.is_uuid s); ok s

  unfoldable pub parse_email : Text → Result Text
  parse_email s = do check (p.is_email s); ok s

  unfoldable pub parse_roles : List RoleEntity → Result (List RoleEntity)
  parse_roles [] = ok []
  parse_roles (r ∷ rs) = do
    first ← Role.parse p (Role.object r)
    rest ← parse_roles rs
    ok (first ∷ rest)

  unfoldable pub parse_password : Option UserPasswordEntity → Result (Option UserPasswordEntity)
  parse_password none = ok none
  parse_password (some w) = do parsed ← Password.parse p (Password.object w); ok (some parsed)

  -- `UserEntitySchema`
  unfoldable pub parse : UserObject → Result UserEntity
  unfolding parse_id parse_email
  parse o = do
    raw_id ← required o.id
    id ← parse_id raw_id
    name ← required o.name
    raw_email ← required o.email
    email ← parse_email raw_email
    raw_roles ← required o.roles
    roles ← parse_roles raw_roles
    password ← parse_password o.password
    ok (record {
      id = id;
      name = name;
      email = email;
      roles = roles;
      password = password;
      stamps = o.stamps;
    })

  abbrev pub shape : Shape UserObject UserEntity
  shape = record {
    empty = empty;
    parse = parse;
    object = object;
    spread = spread;
    assign = assign;
    with_stamps = λ s e. record e { stamps = s };
    stamps = λ e. e.stamps;
  }
