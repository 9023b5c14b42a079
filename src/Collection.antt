-- ===== src/Collection.antt =====
-- utils/collection.ts: the array helpers that the program's own checks are built from.
pub mod Laws
pub mod Chunks
pub mod Keys
use nestjs_microservice_boil.Base.{
  ◌||◌, ℕ, zero, suc, Text, Bool, true, false, not, Option, none, some, List, [], ◌∷◌, ◌++◌, ◌+◌,
  ◌%◌, ◌==◌, ◌===◌, if◌then◌else◌, take, drop, length, any, map, codes,
}
use nestjs_microservice_boil.Exception.{Result, ok, err, foreign}

-- The members that every object inherits.
abbrev pub is_inherited : Text → Bool
is_inherited name =
    any (λ k. k === name)
      (codes "constructor"
        ∷ codes "__defineGetter__"
        ∷ codes "__defineSetter__"
        ∷ codes "hasOwnProperty"
        ∷ codes "__lookupGetter__"
        ∷ codes "__lookupSetter__"
        ∷ codes "isPrototypeOf"
        ∷ codes "propertyIsEnumerable"
        ∷ codes "toString"
        ∷ codes "valueOf"
        ∷ codes "__proto__"
        ∷ codes "toLocaleString"
        ∷ [])

module _ {A : Type 0} where
  -- the callback of `chunk`, at index `i`
  abbrev pub chunk_step : List A → ℕ → List (List A) → ℕ → List (List A)
  chunk_step arr size chunks i =
      if i % size == 0 then chunks ++ take size (drop i arr) ∷ [] else chunks

  -- the `reduce`, from index `i` on
  abbrev pub chunk_from : List A → ℕ → List (List A) → ℕ → List A → List (List A)
  chunk_from arr size chunks i [] = chunks
  chunk_from arr size chunks i (_ ∷ rest) =
      chunk_from arr size (chunk_step arr size chunks i) (suc i) rest

  -- `chunk`, for a `size` from 0 on
  unfoldable pub chunk : List A → ℕ → Result (List (List A))
  chunk arr zero = err (foreign "Size must be > 0")
  chunk arr (suc s) = ok (chunk_from arr (suc s) [] 0 arr)

  -- `(acc[k] ??= []).push(item)`
  abbrev pub push : Text → A → List (Text × List A) → List (Text × List A)
  push k item [] = (k, item ∷ []) ∷ []
  push k item ((k', items) ∷ groups) =
      let rest = push k item groups in
      if k' === k then (k', items ++ item ∷ []) ∷ groups else (k', items) ∷ rest

  -- `groupBy`, with the groups in the order in which they began; `key` is the property as a text. On
  -- the name of an inherited member, which is there and is no array, `push` is not a function.
  abbrev pub group_from : (A → Text) → List (Text × List A) → List A → List (Text × List A)
  group_from key groups [] = groups
  group_from key groups (item ∷ arr) = group_from key (push (key item) item groups) arr

  unfoldable pub group_by : List A → (A → Text) → Result (List (Text × List A))
  group_by arr key =
      if any is_inherited (map key arr)
      then err (foreign "acc[k].push is not a function")
      else ok (group_from key [] arr)

  -- `new Set(arr)`, as the list of its elements
  abbrev pub add_to : (A → A → Bool) → List A → A → List A
  add_to eq set x = if any (λ y. eq y x) set then set else set ++ x ∷ []

  abbrev pub set_from : (A → A → Bool) → List A → List A → List A
  set_from eq set [] = set
  set_from eq set (x ∷ arr) = set_from eq (add_to eq set x) arr

  -- `new Set(arr || []).size !== (arr?.length || 0)`
  unfoldable pub has_duplicated : (A → A → Bool) → List A → Bool
  has_duplicated eq arr = not (length (set_from eq [] arr) == length arr)
