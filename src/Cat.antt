-- ===== src/Cat.antt =====
-- core/cat/entity/cat.ts: the entity and its schema.
pub mod Usecases
pub mod Laws
use nestjs_microservice_boil.Base.{Text, Option, none, some, trim, leb, length, ◌&&◌}
use nestjs_microservice_boil.Exception.{zod_error, Result, ok, err, ◌>>=◌, ◌>>◌}
use nestjs_microservice_boil.Platform.{Platform}
use nestjs_microservice_boil.Entity.{
  Stamps, no_stamps, over_option, or_else, assign_stamps, required, check, Shape,
}
use nestjs_microservice_boil.Number.{Number, integer, at_most, non_negative}

pub record CatEntity : Type 0 where
  pub id : Text
  pub name : Text
  pub breed : Text
  pub age : Number
  pub stamps : Stamps

pub record CatObject : Type 0 where
  pub id : Option Text
  pub name : Option Text
  pub breed : Option Text
  pub age : Option Number
  pub stamps : Stamps

abbrev pub empty : CatObject
empty = record { id = none; name = none; breed = none; age = none; stamps = no_stamps }

abbrev pub object : CatEntity → CatObject
object e = record {
  id = some e.id;
  name = some e.name;
  breed = some e.breed;
  age = some e.age;
  stamps = e.stamps;
}

abbrev pub spread : CatObject → CatObject → CatObject
spread a b = record {
  id = over_option a.id b.id;
  name = over_option a.name b.name;
  breed = over_option a.breed b.breed;
  age = over_option a.age b.age;
  stamps = assign_stamps a.stamps b.stamps;
}

abbrev pub assign : CatEntity → CatObject → CatEntity
assign e o = record {
  id = or_else e.id o.id;
  name = or_else e.name o.name;
  breed = or_else e.breed o.breed;
  age = or_else e.age o.age;
  stamps = assign_stamps e.stamps o.stamps;
}

-- `string().trim().min(1).max(200)`
unfoldable pub parse_name : Text → Result Text
parse_name s = do check (leb 1 (length (trim s)) && leb (length (trim s)) 200); ok (trim s)

-- `int().min(0).max(30)`
unfoldable pub parse_age : Number → Result Number
parse_age (integer z) = do check (non_negative z && at_most z 30); ok (integer z)
parse_age _ = err zod_error

module _ (p : Platform) where
  -- `ID`
  unfoldable pub parse_id : Text → Result Text
  parse_id s = do check (p.is_uuid s); ok s

  -- `CatEntitySchema`
  unfoldable pub parse : CatObject → Result CatEntity
  unfolding parse_id parse_name parse_age
  parse o = do
    raw_id ← required o.id
    id ← parse_id raw_id
    raw_name ← required o.name
    name ← parse_name raw_name
    raw_breed ← required o.breed
    breed ← parse_name raw_breed
    raw_age ← required o.age
    age ← parse_age raw_age
    ok (record { id = id; name = name; breed = breed; age = age; stamps = o.stamps })

  abbrev pub shape : Shape CatObject CatEntity
  shape = record {
    empty = empty;
    parse = parse;
    object = object;
    spread = spread;
    assign = assign;
    with_stamps = λ s e. record e { stamps = s };
    stamps = λ e. e.stamps;
  }
