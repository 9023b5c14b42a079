-- ===== src/Listing.antt =====
-- The decorators of a repository's `paginate`: utils/decorators/sort/validate-sort-fields.decorator.ts and
-- utils/decorators/filter/typeorm/validate-typeorm-filter-fields.decorator.ts, with
-- utils/decorators/filter/filter-utils.ts.
pub mod Allowed
pub mod Decorators
pub mod Orders
pub mod Usecases
pub mod Mongoose
pub mod Cats
use nestjs_microservice_boil.Base.{
  put, lookup, every, filter, codes, Text, Bool, true, false, Option, none, some, List, [], ◌∷◌,
  ◌++◌, map, any, join, ◌===◌, if◌then◌else◌, truthy,
}
use nestjs_microservice_boil.Number.{Number}
use nestjs_microservice_boil.Entity.{or_else}
use nestjs_microservice_boil.Exception.{
  Result, ok, err, api, bad_request, composed, literal, ◌>>=◌, ◌>>◌,
}
use nestjs_microservice_boil.Exec.{Exec, lift}
use nestjs_microservice_boil.Query.{SearchValue, one, many}
use nestjs_microservice_boil.Store.Page.{PaginationInput, SortOrder}
use nestjs_microservice_boil.Store.Postgres.{Operand, is, among, raw, Where}
use nestjs_microservice_boil.Value.{Value, text, bool, number}

-- `AllowedSort`
pub record AllowedSort : Type 0 where
  pub name : Text
  pub mapped : Option Text

abbrev pub sort_target : AllowedSort → Text
sort_target a = or_else a.name a.mapped

-- `throw` unless every key has a name in the list; `shown` is the list as the message shows it.
unfoldable pub check_keys {ℓ} :
    {V : Type ℓ} → Text → List Text → List Text → List (Text × V) → Result (Unit {0})
check_keys word names shown [] = ok tt
check_keys word names shown ((key, _) ∷ entries) =
    if any (λ n. n === key) names
    then check_keys word names shown entries
    else err (
        api bad_request (
          composed
            (word ++ key ++ codes " not allowed, allowed list: " ++ join (codes ", ") shown)))

abbrev pub sort_name : AllowedSort → Text
sort_name a = a.name

-- the loop over the allowed fields
unfoldable pub pick_sort :
    List AllowedSort → List (Text × SortOrder) → List (Text × SortOrder) → List (Text × SortOrder)
pick_sort [] asked sort = sort
pick_sort (a ∷ allowed) asked sort =
    pick_sort allowed asked
      (elim (lookup a.name asked) [ none ↦ sort | some o ↦ put (sort_target a) o sort ])

-- The members of the list are objects, and the message shows them as such.
unfoldable pub validate_sort :
    List AllowedSort → List (Text × SortOrder) → Result (List (Text × SortOrder))
unfolding check_keys pick_sort
validate_sort allowed asked = do
  check_keys (codes "sort ") (map sort_name allowed)
      (map (λ (_ : AllowedSort). codes "[object Object]") allowed) asked
  ok (pick_sort allowed asked [])

-- `SearchTypeEnum` and `AllowedFilter`
pub data SearchType : Type 0 where
  like equal : SearchType

pub data Format : Type 0 where
  string date date_iso boolean numeric object_id : Format

pub record AllowedFilter : Type 0 where
  pub search_type : SearchType
  pub mapped : Option Text
  pub format : Option Format
  pub name : Text

-- `DateUtils.build`, `Number`, and the object ids of the driver.
pub record Conversions : Type 0 where
  pub build_date : Text → Result Value
  pub build_iso : Text → Result Value
  pub to_number : Text → Number
  pub is_object_id : Text → Bool
  pub new_object_id : Text → Result Value

module _ (conversions : Conversions) where
  open conversions use {build_date, build_iso, to_number, is_object_id, new_object_id}

  -- `convertFilterValue`, on a text; `Number.isNaN` is false on every text.
  unfoldable pub convert_filter_value : Option Format → Text → Result Value
  convert_filter_value none v = ok (text v)
  convert_filter_value (some string) v = ok (text v)
  convert_filter_value (some date) v = build_date v
  convert_filter_value (some date_iso) v = build_iso v
  convert_filter_value (some boolean) v =
      if v === codes "true"
      then ok (bool true)
      else if v === codes "false"
      then ok (bool false)
      else err (api bad_request (literal "invalid boolean filter"))
  convert_filter_value (some numeric) v = ok (number (to_number v))
  convert_filter_value (some object_id) v =
      if is_object_id v
      then new_object_id (v ++ codes " ")
      else err (api bad_request (literal "invalid objectId filter"))

  unfoldable pub convert_all : Option Format → List Text → Result (List Value)
  unfolding convert_filter_value
  convert_all format [] = ok []
  convert_all format (v ∷ vs) = do
    x ← convert_filter_value format v
    xs ← convert_all format vs
    ok (x ∷ xs)

  abbrev like_sql : (alias value : Text) → Text
  like_sql alias value =
      codes "unaccent(" ++ alias ++ codes ") ilike unaccent(:" ++ value ++ codes ")"

  -- The operand of one allowed filter, for what is asked of it.
  unfoldable pub filter_operand : SearchType → Option Format → SearchValue → Result Operand
  unfolding convert_all convert_filter_value
  filter_operand equal format (many vs) = do xs ← convert_all format vs; ok (among xs)
  filter_operand equal format (one v) = do x ← convert_filter_value format v; ok (is x)
  filter_operand like format (many vs) =
      ok (
        raw (λ alias. join (codes " or ") (map (like_sql alias) vs))
          (map (λ (v : Text). (v, v)) vs))
  filter_operand like format (one v) =
      ok (raw (λ alias. like_sql alias (codes "value")) ((codes "value", v) ∷ []))

  abbrev pub filter_target : AllowedFilter → Text
  filter_target a = or_else a.name a.mapped

  -- `if (!filters) continue`
  abbrev pub wanted : Option SearchValue → Option SearchValue
  wanted none = none
  wanted (some (many vs)) = some (many vs)
  wanted (some (one v)) = if truthy v then some (one v) else none

  abbrev pub filter_conditions : AllowedFilter → Option SearchValue → Where → Result Where
  filter_conditions a none conditions = ok conditions
  filter_conditions a (some v) conditions = do
    operand ← filter_operand a.search_type a.format v
    ok (put (filter_target a) operand conditions)

  -- the loop over the allowed filters
  unfoldable pub pick_filters :
      List AllowedFilter → List (Text × SearchValue) → Where → Result Where
  unfolding filter_operand
  pick_filters [] asked conditions = ok conditions
  pick_filters (a ∷ allowed) asked conditions = do
    added ← filter_conditions a (wanted (lookup a.name asked)) conditions
    pick_filters allowed asked added

  abbrev pub filter_name : AllowedFilter → Text
  filter_name a = a.name

  unfoldable pub convert_typeorm : List AllowedFilter → List (Text × SearchValue) → Result Where
  unfolding check_keys pick_filters
  convert_typeorm allowed asked = do
    check_keys (codes "filter ") (map filter_name allowed) (map filter_name allowed) asked
    pick_filters allowed asked []
