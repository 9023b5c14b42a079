-- ===== src/Store/Filter.antt =====
-- utils/decorators/filter/mongoose/convert-mongoose-filter-to-query.decorator.ts: what the decorated
-- methods of the Mongo repository get as their filter.
pub mod Keys
pub mod Laws
use nestjs_microservice_boil.Base.{
  codes, Text, List, [], ◌∷◌, ◌++◌, ℕ, suc, Option, none, some, if◌then◌else◌, truthy,
}
use nestjs_microservice_boil.Value.{
  Value, null, bool, number, text, opaque, array, object, Fields, end, field, is_truthy, get, set,
  delete,
}

abbrev pub deleted_at : Text
deleted_at = codes "deletedAt"

abbrev pub id_key : Text
id_key = codes "id"

abbrev pub mongo_id : Text
mongo_id = codes "_id"

-- `prefix ? `${prefix}.${key}` : key`
unfoldable pub full_key : (prefix key : Text) → Text
full_key prefix key = if truthy prefix then prefix ++ 0x2e ∷ key else key

-- `flattenKeys`; a `Date` or a `RegExp` is an object too, and has no keys to go through.
unfoldable mutual
  pub flatten_keys : (input target : Fields) (prefix : Text) → Fields
  flatten_keys end target prefix = target
  flatten_keys (field key value input) target prefix =
      flatten_keys input (flatten_value value target (full_key prefix key)) prefix

  pub flatten_value : (value : Value) (target : Fields) (key : Text) → Fields
  flatten_value (object fields) target key = flatten_keys fields target key
  flatten_value (opaque o) target key = target
  flatten_value null target key = set key null target
  flatten_value (bool b) target key = set key (bool b) target
  flatten_value (number x) target key = set key (number x) target
  flatten_value (text s) target key = set key (text s) target
  flatten_value (array items) target key = set key (array items) target

-- `if (input.id) { input._id = input.id; delete input.id }`
unfoldable pub rename_id : Fields → Fields
rename_id input = elim (get id_key input) [
  | none ↦ input
  | some id ↦ if is_truthy id then delete id_key (set mongo_id id input) else input
]

-- The decorator, on a filter that is there.
unfoldable pub convert_filter : Fields → Fields
unfolding flatten_keys rename_id
convert_filter input = flatten_keys (rename_id (set deleted_at null input)) end []

-- A decorated method's first argument: a filter, or a list of property names.
pub data Argument : Type 0 where
  plain : Fields → Argument
  names : List Text → Argument

module _ (digits : ℕ → Text) where
  -- the keys of an array, from `i` on
  abbrev pub indexed : ℕ → List Text → Fields
  indexed i [] = end
  indexed i (name ∷ rest) = field (digits i) (text name) (indexed (suc i) rest)

  -- The decorator: the argument becomes a plain object, also where it was an array.
  unfoldable pub convert_argument : Argument → Argument
  convert_argument (plain input) = plain (convert_filter input)
  convert_argument (names list) = plain (convert_filter (indexed 0 list))
