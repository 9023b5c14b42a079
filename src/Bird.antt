-- ===== src/Bird.antt =====
-- core/bird/entity/bird.ts: the entity and its schema.
pub mod Usecases
pub mod Laws
use nestjs_microservice_boil.Base.{Text, Option, none, some, trim, leb, length, ◌&&◌}
use nestjs_microservice_boil.Exception.{Result, ok, err, ◌>>=◌, ◌>>◌}
use nestjs_microservice_boil.Platform.{Platform}
use nestjs_microservice_boil.Entity.{
  Stamps, no_stamps, over_option, or_else, assign_stamps, required, check, Shape,
}

pub record BirdEntity : Type 0 where
  pub id : Text
  pub name : Text
  pub stamps : Stamps

pub record BirdObject : Type 0 where
  pub id : Option Text
  pub name : Option Text
  pub stamps : Stamps

abbrev pub empty : BirdObject
empty = record { id = none; name = none; stamps = no_stamps }

abbrev pub object : BirdEntity → BirdObject
object e = record { id = some e.id; name = some e.name; stamps = e.stamps }

abbrev pub spread : BirdObject → BirdObject → BirdObject
spread a b = record {
  id = over_option a.id b.id;
  name = over_option a.name b.name;
  stamps = assign_stamps a.stamps b.stamps;
}

abbrev pub assign : BirdEntity → BirdObject → BirdEntity
assign e o = record {
  id = or_else e.id o.id;
  name = or_else e.name o.name;
  stamps = assign_stamps e.stamps o.stamps;
}

-- `string().trim().min(1).max(200)`
unfoldable pub parse_name : Text → Result Text
parse_name s = do check (leb 1 (length (trim s)) && leb (length (trim s)) 200); ok (trim s)

module _ (p : Platform) where
  -- `ID`
  unfoldable pub parse_id : Text → Result Text
  parse_id s = do check (p.is_uuid s); ok s

  -- `BirdEntitySchema`
  unfoldable pub parse : BirdObject → Result BirdEntity
  unfolding parse_id parse_name
  parse o = do
    raw_id ← required o.id
    id ← parse_id raw_id
    raw_name ← required o.name
    name ← parse_name raw_name
    ok (record { id = id; name = name; stamps = o.stamps })

  abbrev pub shape : Shape BirdObject BirdEntity
  shape = record {
    empty = empty;
    parse = parse;
    object = object;
    spread = spread;
    assign = assign;
    with_stamps = λ s e. record e { stamps = s };
    stamps = λ e. e.stamps;
  }
