-- ===== src/ResetPassword.antt =====
-- core/reset-password/entity/reset-password.ts: the entity and its schema.
pub mod Usecases
pub mod Laws
use nestjs_microservice_boil.Base.{Text, Option, none, some, List, [], ◌∷◌, leb, length, trim}
use nestjs_microservice_boil.Exception.{◌>>=◌, ◌>>◌, Result, ok}
use nestjs_microservice_boil.User
use nestjs_microservice_boil.User.{UserEntity}
use nestjs_microservice_boil.Entity.{
  no_stamps, or_else, over_option, Shape, Stamps, assign_stamps, check, required,
}
use nestjs_microservice_boil.Platform.{Platform}

pub record ResetPasswordEntity : Type 0 where
  pub id : Text
  pub token : Text
  pub user : Option UserEntity
  pub stamps : Stamps

pub record ResetPasswordObject : Type 0 where
  pub id : Option Text
  pub token : Option Text
  pub user : Option UserEntity
  pub stamps : Stamps

abbrev pub empty : ResetPasswordObject
empty = record { id = none; token = none; user = none; stamps = no_stamps }

abbrev pub object : ResetPasswordEntity → ResetPasswordObject
object e = record { id = some e.id; token = some e.token; user = e.user; stamps = e.stamps }

abbrev pub spread : ResetPasswordObject → ResetPasswordObject → ResetPasswordObject
spread a b = record {
  id = over_option a.id b.id;
  token = over_option a.token b.token;
  user = over_option a.user b.user;
  stamps = assign_stamps a.stamps b.stamps;
}

abbrev pub assign : ResetPasswordEntity → ResetPasswordObject → ResetPasswordEntity
assign e o = record {
  id = or_else e.id o.id;
  token = or_else e.token o.token;
  user = over_option e.user o.user;
  stamps = assign_stamps e.stamps o.stamps;
}

module _ (p : Platform) where
  -- `User.optional()`
  unfoldable pub parse_user : Option UserEntity → Result (Option UserEntity)
  parse_user none = ok none
  parse_user (some u) = do parsed ← User.parse p (User.object u); ok (some parsed)

  -- `string().min(1).trim()`: the length is checked before the trim.
  unfoldable pub parse_token : Text → Result Text
  parse_token s = do check (leb 1 (length s)); ok (trim s)

  -- `ResetPasswordEntitySchema`
  unfoldable pub parse : ResetPasswordObject → Result ResetPasswordEntity
  unfolding parse_token
  parse o = do
    raw_id ← required o.id
    id ← User.parse_id p raw_id
    raw_token ← required o.token
    token ← parse_token raw_token
    user ← parse_user o.user
    ok (record { id = id; token = token; user = user; stamps = o.stamps })

  abbrev pub shape : Shape ResetPasswordObject ResetPasswordEntity
  shape = record {
    empty = empty;
    parse = parse;
    object = object;
    spread = spread;
    assign = assign;
    with_stamps = λ s e. record e { stamps = s };
    stamps = λ e. e.stamps;
  }
