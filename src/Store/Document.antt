-- ===== src/Store/Document.antt =====
-- What infra/repository/mongo/repository.ts is given, and its private helpers.
use nestjs_microservice_boil.Base.{
  filter, codes, ℕ, Text, Bool, true, false, Option, none, some, List, [], ◌∷◌, join,
}
use nestjs_microservice_boil.Exception.{Result, ok, err, foreign}
use nestjs_microservice_boil.Value.{
  Value, null, text, object, Fields, end, field, is_truthy, get, set, delete,
}
use nestjs_microservice_boil.Store.Filter.{
  Argument, plain, names, deleted_at, id_key, mongo_id, convert_filter,
}
use nestjs_microservice_boil.Store.Models.{UpdatedModel}
use nestjs_microservice_boil.Store.Page.{SortOrder}

-- A Mongoose model of documents `M` over a database `D`. `save` is `new model(o).save()` and
-- answers the saved `_id`; the two searches with a selection are `find(...).select(...)`; the two
-- with paths are `find(...).populate(...)` for each path.
pub record Model (D M : Type 0) : Type 0 where
  pub find : Fields → D → Result (List M)
  pub find_one : Fields → D → Result (Option M)
  pub find_by_id : Text → D → Result (Option M)
  pub find_select : Fields → Text → D → Result (List M)
  pub find_one_select : Fields → Text → D → Result (Option M)
  pub find_populate : Fields → List Text → D → Result (List M)
  pub find_one_populate : Fields → List Text → D → Result (Option M)
  pub exists : Fields → D → Result Bool
  pub paginate : Fields → ℕ → ℕ → List (Text × SortOrder) → D → Result (List M × ℕ)
  pub insert_many : List Fields → D → Result (Unit {0}) × D
  pub save : Fields → D → Result Text × D
  pub update_one : Fields → Fields → D → Result UpdatedModel × D
  pub update_many : Fields → Fields → D → Result UpdatedModel × D
  pub find_one_and_update : Fields → Fields → D → Result (Option M) × D
  pub delete_one : Fields → D → Result ℕ × D

-- `{ [key]: value }` for a value that may be missing; a missing one is left out.
abbrev pub set_option : Text → Option Value → Fields → Fields
set_option key none fs = fs
set_option key (some v) fs = set key v fs

-- `document._id || document.id`
abbrev pub first_id : Option Value → Option Value → Option Value
first_id none id = id
first_id (some v) id = elim (is_truthy v) [ true ↦ some v | false ↦ id ]

-- `{ $ne: id }`
abbrev pub not_equal_to : Text → Value
not_equal_to id = object (field (codes "$ne") (text id) end)

-- `applyFilterWhenFilterParameterIsNotFirstOption`
abbrev renamed : Option Value → Fields → Fields
renamed none fs = fs
renamed (some id) fs = elim (is_truthy id) [
  | true ↦ delete id_key (set mongo_id id fs)
  | false ↦ fs
]

abbrev dated : Option Value → Fields → Fields
dated none fs = set deleted_at null fs
dated (some v) fs = elim (is_truthy v) [ true ↦ fs | false ↦ set deleted_at null fs ]

unfoldable pub apply_filter : Option Fields → Fields
apply_filter none = field deleted_at null end
apply_filter (some filter) =
    let processed = renamed (get id_key filter) filter in dated (get deleted_at processed) processed

-- `JoinType`: for each property `true`, `false` or a list of names
pub data Join : Type 0 where
  whole : Bool → Join
  parts : List Text → Join

-- `getPopulatePaths`
unfoldable pub get_populate_paths : List (Text × Join) → List Text
get_populate_paths [] = []
get_populate_paths ((key, join) ∷ joins) =
    let rest = get_populate_paths joins in
    elim join [ whole b ↦ elim b [ true ↦ key ∷ rest | false ↦ rest ] | parts _ ↦ rest ]

-- an argument that the method calls `map` on
abbrev pub as_names : Argument → Result (List Text)
as_names (names list) = ok list
as_names (plain _) = err (foreign "includeProperties.map is not a function")

-- `convertFilter` on a filter that may be missing, and what Mongoose makes of a missing one
abbrev pub any_filter : Option Fields → Fields
any_filter none = end
any_filter (some filter) = convert_filter filter

-- A repository's model, with `toObject` of its documents, with their virtuals and without, and the runtime's `toString` of values and
-- of array indices.
pub record Host (D M O : Type 0) : Type 0 where
  pub model : Model D M
  pub to_object : M → O
  pub to_plain : M → O
  pub to_string : Value → Text
  pub digits : ℕ → Text
