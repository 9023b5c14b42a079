-- ===== src/Value.antt =====
-- JavaScript values as far as a filter of the database layer holds them. An object has each key
-- once, in the order in which its keys were added; keys that look like array indices, which the
-- runtime would list first, do not occur in a filter.
pub mod Paths
use nestjs_microservice_boil.Base.{
  Text, Bool, true, false, not, Option, none, some, ◌===◌, if◌then◌else◌, truthy, ◌==◌,
}
use nestjs_microservice_boil.Number.{Number, is_nan, integer, ℤ, pos}

mutual
  -- `opaque` is an object with no enumerable key of its own, such as a `Date` or a `RegExp`.
  pub data Value : Type 0 where
    null : Value
    bool : Bool → Value
    number : Number → Value
    text : Text → Value
    opaque : Text → Value
    array : Items → Value
    object : Fields → Value

  pub data Items : Type 0 where
    nil : Items
    cons : Value → Items → Items

  pub data Fields : Type 0 where
    end : Fields
    field : Text → Value → Fields → Fields

-- a number that is neither 0 nor NaN
abbrev nonzero : Number → Bool
nonzero (integer (pos n)) = not (n == 0)
nonzero x = not (is_nan x)

abbrev pub is_truthy : Value → Bool
is_truthy null = false
is_truthy (bool b) = b
is_truthy (number x) = nonzero x
is_truthy (text s) = truthy s
is_truthy _ = true

-- `fs[key]`
unfoldable pub get : Text → Fields → Option Value
get key end = none
get key (field k v fs) = if k === key then some v else get key fs

-- `delete fs[key]`
unfoldable pub delete : Text → Fields → Fields
delete key end = end
delete key (field k v fs) = let rest = delete key fs in if k === key then rest else field k v rest

-- `fs[key] = value`: an old key keeps its place, and there is no second one to change.
unfoldable pub set : Text → Value → Fields → Fields
unfolding delete
set key value end = field key value end
set key value (field k v fs) =
    let rest = set key value fs in
    if k === key then field key value (delete key fs) else field k v rest

-- `{ ...a, ...b }`, and `Object.assign(a, b)`
unfoldable pub assign : Fields → Fields → Fields
unfolding set
assign a end = a
assign a (field k v b) = assign (set k v a) b
