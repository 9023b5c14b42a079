-- ===== src/User/Password.antt =====
-- core/user/entity/user-password.ts: the entity, its schema and its operations.
use nestjs_microservice_boil.Exception.{◌>>=◌, ◌>>◌, Result, err, api, bad_request, literal, ok}
use nestjs_microservice_boil.Base.{Text, ◌===◌, not, Option, none, some, if◌then◌else◌}
use nestjs_microservice_boil.Entity.{
  Stamps, no_stamps, or_else, over_option, Shape, assign_stamps, required, check,
}
use nestjs_microservice_boil.Platform.{Platform}

pub record UserPasswordEntity : Type 0 where
  pub id : Text
  pub password : Text
  pub stamps : Stamps

pub record UserPasswordObject : Type 0 where
  pub id : Option Text
  pub password : Option Text
  pub stamps : Stamps

abbrev pub empty : UserPasswordObject
empty = record { id = none; password = none; stamps = no_stamps }

abbrev pub object : UserPasswordEntity → UserPasswordObject
object e = record { id = some e.id; password = some e.password; stamps = e.stamps }

abbrev pub spread : UserPasswordObject → UserPasswordObject → UserPasswordObject
spread a b = record {
  id = over_option a.id b.id;
  password = over_option a.password b.password;
  stamps = assign_stamps a.stamps b.stamps;
}

abbrev pub assign : UserPasswordEntity → UserPasswordObject → UserPasswordEntity
assign e o = record {
  id = or_else e.id o.id;
  password = or_else e.password o.password;
  stamps = assign_stamps e.stamps o.stamps;
}

module _ (p : Platform) where
  -- `UserPasswordEntitySchema`
  unfoldable pub parse : UserPasswordObject → Result UserPasswordEntity
  parse o = do
    id ← required o.id
    check (p.is_uuid id)
    password ← required o.password
    ok (record { id = id; password = password; stamps = o.stamps })

  abbrev pub shape : Shape UserPasswordObject UserPasswordEntity
  shape = record {
    empty = empty;
    parse = parse;
    object = object;
    spread = spread;
    assign = assign;
    with_stamps = λ s e. record e { stamps = s };
    stamps = λ e. e.stamps;
  }

  -- `createPassword`
  unfoldable pub create_password : UserPasswordEntity → UserPasswordEntity
  create_password e = record e { password = p.hash e.password }

  -- `changePassword`
  unfoldable pub change_password : Text → UserPasswordEntity → UserPasswordEntity
  unfolding create_password
  change_password new_password e = create_password (record e { password = new_password })

-- `verifyPassword`
unfoldable pub verify_password : Text → UserPasswordEntity → Result (Unit {0})
verify_password password e =
    if not (e.password === password)
    then err (api bad_request (literal "incorrectPassword"))
    else ok tt
