-- ===== src/Entity.antt =====
-- `BaseEntity` of src/utils/entity.ts: the timestamps that every entity has, its life cycle, and
-- `toObject`, `clone` and `merge` over the entity's schema. Dates are milliseconds.
pub mod Construct
pub mod Merge
pub mod Events
pub mod Lifecycle
pub mod Stored
use nestjs_microservice_boil.Base.{
  map, ℕ, Text, Bool, true, false, not, ◌&&◌, ◌||◌, Option, none, some,
}
use mathlib.Core.Option
use nestjs_microservice_boil.Exception.{foreign, Result, ok, err, ◌>>=◌, ◌>>◌, zod_error, data_of}

-- A field that may be missing (`undefined`), `null`, or there.
pub data Nullish (A : Type 0) : Type 0 where
  undefined null : Nullish A
  value : A → Nullish A

pub record Stamps : Type 0 where
  pub created_at : Nullish ℕ
  pub updated_at : Nullish ℕ
  pub deleted_at : Nullish ℕ

abbrev pub no_stamps : Stamps
no_stamps = record { created_at = undefined; updated_at = undefined; deleted_at = undefined }

-- `d === x`, for `d` one of `[null, undefined]`
abbrev is_null : Nullish ℕ → Bool
is_null null = true
is_null _ = false

abbrev is_undefined : Nullish ℕ → Bool
is_undefined undefined = true
is_undefined _ = false

-- `[null, undefined].every((d) => d !== this.deletedAt)`
unfoldable pub is_active : Stamps → Bool
is_active s = not (is_null s.deleted_at) && not (is_undefined s.deleted_at)

-- `[null, undefined].some((d) => d === this.deletedAt)`
unfoldable pub is_deleted : Stamps → Bool
is_deleted s = is_null s.deleted_at || is_undefined s.deleted_at

unfoldable pub deactivate : ℕ → Stamps → Stamps
deactivate now s = record s { deleted_at = value now }

unfoldable pub activate : Stamps → Stamps
activate s = record s { deleted_at = null }

-- The base constructor runs before any field is assigned, so `createdAt` is missing there.
unfoldable pub initialize_timestamps : ℕ → Stamps
initialize_timestamps now = record {
  created_at = value now;
  updated_at = value now;
  deleted_at = undefined;
}

-- `{ ...a, ...b }` and `Object.assign(a, b)` on a field: a missing one does not overwrite. A key
-- that is there with the value `undefined` would; `ValidateSchema` removes those.
abbrev pub over : Nullish ℕ → Nullish ℕ → Nullish ℕ
over a undefined = a
over a b = b

abbrev pub over_option : {A : Type 0} → Option A → Option A → Option A
over_option a none = a
over_option a (some b) = some b

abbrev pub or_else : {A : Type 0} → A → Option A → A
or_else a none = a
or_else a (some b) = b

unfoldable pub assign_stamps : Stamps → Stamps → Stamps
assign_stamps a b = record {
  created_at = over a.created_at b.created_at;
  updated_at = over a.updated_at b.updated_at;
  deleted_at = over a.deleted_at b.deleted_at;
}

-- zod on a required field: a missing value is refused.
abbrev pub required : {A : Type 0} → Option A → Result A
required none = err zod_error
required (some a) = ok a

abbrev pub check : Bool → Result (Unit {0})
check true = ok tt
check false = err zod_error

-- What an entity class gives to `BaseEntity`: plain objects `O`, in which every field may be
-- missing, the schema, and the field by field assignments.
pub record Shape (O E : Type 0) : Type 0 where
  pub empty : O
  pub parse : O → Result E
  pub object : E → O
  pub spread : O → O → O
  pub assign : E → O → E
  pub with_stamps : Stamps → E → E
  pub stamps : E → Stamps

module _ {O E : Type 0} (shape : Shape O E) where
  -- An entity class's constructor: the base constructor, then `validate`. `ensureID` finds the id
  -- that the schema requires.
  unfoldable pub construct : ℕ → O → Result E
  unfolding initialize_timestamps assign_stamps
  construct now o = do
    parsed ← shape.parse o
    ok (shape.with_stamps (assign_stamps (initialize_timestamps now) (shape.stamps parsed)) parsed)

  -- `this._schema.safeParse({ ...this }).data`
  unfoldable pub to_object : E → Option E
  to_object e = data_of (shape.parse (shape.object e))

  abbrev object_or_empty : Option E → O
  object_or_empty none = shape.empty
  object_or_empty (some e) = shape.object e

  -- `{ ...this.toObject(), ...partial }`
  unfoldable pub merged : E → O → O
  unfolding to_object
  merged e partial = shape.spread (object_or_empty (to_object e)) partial

  -- `validate` assigns the parsed object, and `merge` then assigns the unparsed one over it.
  unfoldable pub merge : E → O → Result E
  unfolding merged
  merge e partial = do
    parsed ← shape.parse (merged e partial)
    ok (shape.assign (shape.assign e (shape.object parsed)) (merged e partial))

  -- `new Entity(x)` for an `x` that may be `null` or `undefined`: `normalizeID` assigns to it.
  unfoldable pub construct_nullable : ℕ → Option O → Result E
  unfolding construct
  construct_nullable now none = err (foreign "Cannot convert undefined or null to object")
  construct_nullable now (some o) = construct now o

  -- `new Constructor(this.toObject())`
  unfoldable pub clone : ℕ → E → Result E
  unfolding to_object construct_nullable
  clone now e = construct_nullable now (Option.map shape.object (to_object e))
