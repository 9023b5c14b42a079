-- ===== src/Store/Commands.antt =====
-- The search by commands: `validateFindByCommandsFilter` of infra/repository/util.ts and
-- `buildCommandFilter` of infra/repository/mongo/repository.ts.
pub mod Laws
use nestjs_microservice_boil.Base.{
  codes, ℕ, Text, Bool, true, false, List, [], ◌∷◌, ◌++◌, map, ◌==◌, ◌===◌, if◌then◌else◌, length,
  filter, join, ◌||◌,
}
use nestjs_microservice_boil.Exception.{Result, ok, err, api, bad_request, composed, ◌>>=◌, ◌>>◌}
use nestjs_microservice_boil.Collection.{group_by}
use nestjs_microservice_boil.Value.{
  Value, Items, nil, cons, null, opaque, array, object, Fields, end, field, set,
}
use nestjs_microservice_boil.Store.Filter.{deleted_at, id_key, mongo_id}

-- `DatabaseOperationEnum`
pub data Operation : Type 0 where
  equal not_equal not_contains contains : Operation

-- `DatabaseOperationCommand`
pub record OperationCommand : Type 0 where
  pub property : Text
  pub value : List Value
  pub command : Operation

abbrev pub operation_text : Operation → Text
operation_text equal = codes "equal"
operation_text not_equal = codes "not_equal"
operation_text not_contains = codes "not_contains"
operation_text contains = codes "contains"

abbrev pub is_like : OperationCommand → Bool
is_like c = elim c.command [ contains ↦ true | not_contains ↦ true | _ ↦ false ]

abbrev pub is_equal : OperationCommand → Bool
is_equal c = elim c.command [ equal ↦ true | not_equal ↦ true | _ ↦ false ]

abbrev property_of : OperationCommand → Text
property_of c = c.property

-- `NOT_ALLOWED_COMBINATION`
abbrev pub not_allowed_combination : ℕ
not_allowed_combination = 2

abbrev refusal : Text → List OperationCommand → Text
refusal key group =
    codes "it is not possible to filter: '"
    ++ key
    ++ codes "' with the commands '"
    ++ join (codes ", ") (map (λ (c : OperationCommand). operation_text c.command) group)
    ++ codes "'"

-- the body of the loop over the groups
unfoldable pub validate_group : Text → List OperationCommand → Result (Unit {0})
validate_group key group =
    if length (filter is_like group) == not_allowed_combination
    then err (api bad_request (composed (refusal key group)))
    else if length (filter is_equal group) == not_allowed_combination
    then err (api bad_request (composed (refusal key group)))
    else ok tt

unfoldable pub validate_groups : List (Text × List OperationCommand) → Result (Unit {0})
unfolding validate_group
validate_groups [] = ok tt
validate_groups ((key, group) ∷ groups) = validate_group key group >> validate_groups groups

unfoldable pub validate_find_by_commands_filter : List OperationCommand → Result (Unit {0})
unfolding validate_groups
validate_find_by_commands_filter filter_list = do
  groups ← group_by filter_list property_of
  validate_groups groups

abbrev pub items : List Value → Items
items [] = nil
items (v ∷ vs) = cons v (items vs)

-- `mongoSearch[command].type`
abbrev search_type : Operation → Text
search_type equal = codes "$in"
search_type not_equal = codes "$nin"
search_type not_contains = codes "$nin"
search_type contains = codes "$in"

abbrev pub mongo_key : Text → Text
mongo_key property = if property === id_key then mongo_id else property

module _ (to_string : Value → Text) where
  -- `new RegExp(`^${value}`, 'i')`, by its source; the flag is the same for all
  abbrev regexp : Value → Value
  regexp v = opaque (0x5e ∷ to_string v)

  abbrev searched : OperationCommand → List Value
  searched c = if is_like c then map regexp c.value else c.value

  -- the loop of `buildCommandFilter`
  unfoldable pub add_commands : List OperationCommand → Fields → Fields
  add_commands [] search_list = search_list
  add_commands (c ∷ rest) search_list = add_commands rest (
      set (mongo_key c.property)
        (object (field (search_type c.command) (array (items (searched c))) end)) search_list)

  unfoldable pub build_command_filter : List OperationCommand → Result Fields
  unfolding validate_find_by_commands_filter add_commands
  build_command_filter filter_list = do
    validate_find_by_commands_filter filter_list
    ok (set deleted_at null (add_commands filter_list end))
