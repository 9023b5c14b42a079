-- ===== src/Query.antt =====
-- The query parameters of a list: utils/sort.ts and utils/search.ts. `lower` is `toLowerCase`. An
-- object is the list of its entries in the order in which their keys were first written; keys that
-- look like array indices, which the runtime would list first, are kept in that order too.
pub mod Crashes
pub mod Searching
pub mod Printing
use nestjs_microservice_boil.Base.{
  put, codes, ℕ, Text, String, ◌==◌, Bool, true, false, not, ◌&&◌, ◌||◌, Option, none, some, List,
  [], ◌∷◌, map, truthy, includes, starts_with, split, trim, every, ◌===◌, if◌then◌else◌,
}
use nestjs_microservice_boil.Entity.{check, required}
use nestjs_microservice_boil.Exception.{Result, ok, err, foreign, ◌>>=◌, ◌>>◌}
use nestjs_microservice_boil.Store.Page.{SortOrder, asc, desc}

-- `s.includes(t)`
abbrev begins : Text → Text → Bool
begins [] s = true
begins (x ∷ t) [] = false
begins (x ∷ t) (y ∷ s) = x == y && begins t s

abbrev includes_text : Text → Text → Bool
includes_text t [] = begins t []
includes_text t (y ∷ s) = begins t (y ∷ s) || includes_text t s

-- The first refinement of both schemas.
abbrev pub is_format : Text → Bool
is_format s = not (starts_with 0x3a s) && includes 0x3a s

-- `s.split(':').reverse()[0]`
abbrev last_or : Text → List Text → Text
last_or d [] = d
last_or d (x ∷ xs) = last_or x xs

abbrev pub last_part : Text → Text
last_part s = last_or [] (split 0x3a s)

-- The text of a parameter that is there and is not empty.
abbrev pub present : Option Text → Option Text
present none = none
present (some s) = if truthy s then some s else none

-- `s || t`
abbrev pub or_text : Text → Text → Text
or_text s t = if truthy s then s else t

-- What `value.trim()` throws for a missing value.
abbrev pub type_error : String
type_error = "Cannot read properties of undefined"

-- `SortEnum[key]`: a number, the name of a number, a member of every object, or nothing.
pub data SortValue : Type 0 where
  order : SortOrder → SortValue
  name : Text → SortValue
  inherited : Text → SortValue
  missing : SortValue

unfoldable pub sort_enum : Text → SortValue
sort_enum key =
    if key === codes "asc"
    then order asc
    else if key === codes "desc"
    then order desc
    else if key === codes "1"
    then name (codes "asc")
    else if key === codes "-1"
    then name (codes "desc")
    else if key === codes "constructor" || key === codes "__proto__"
    then inherited key
    else missing

module _ (lower : Text → Text) where
  abbrev normalized : Text → Text
  normalized s = or_text (lower (trim s)) (codes "asc")

  -- the second refinement of `SortHttpSchema`
  abbrev pub is_ordered : Text → Bool
  is_ordered sort =
      every (λ s. let o = normalized (last_part s) in o === codes "asc" || o === codes "desc")
        (split 0x2c sort)

  -- `const [field, order] = s.split(':')`, and the entry
  abbrev pub sort_entry : List Text → Result (Text × SortValue)
  sort_entry (field ∷ o ∷ _) = ok (trim field, sort_enum (normalized o))
  sort_entry _ = err (foreign type_error)

  unfoldable pub sort_entries :
      List Text → List (Text × SortValue) → Result (List (Text × SortValue))
  unfolding sort_enum
  sort_entries [] entries = ok entries
  sort_entries (s ∷ rest) entries = do
    (field, value) ← sort_entry (split 0x3a s)
    sort_entries rest (put field value entries)

  abbrev default_sort : Text
  default_sort = codes "createdAt:desc"

  -- the `transform` of `SortHttpSchema`
  unfoldable pub sort_transform : Option Text → Result (List (Text × SortValue))
  unfolding sort_entries
  sort_transform none = sort_entries (split 0x2c default_sort) []
  sort_transform (some sort) =
      sort_entries
        (split 0x2c (
          if not (includes_text (codes "createdAt") sort) then sort else or_text sort default_sort))
        []

  abbrev sort_checks : Option Text → Result (Unit {0})
  sort_checks none = ok tt
  sort_checks (some sort) = check (is_format sort && is_ordered sort)

  -- `SortHttpSchema`; an empty text is a missing one.
  unfoldable pub sort_http_schema : Option Text → Result (List (Text × SortValue))
  unfolding sort_transform
  sort_http_schema sort = do sort_checks (present sort); sort_transform (present sort)

-- The entries of `SortSchema`'s record: a key that is not blank, and a number of the enumeration.
abbrev as_order : SortValue → Option SortOrder
as_order (order o) = some o
as_order _ = none

unfoldable pub sort_schema_from :
    List (Text × SortValue) → List (Text × SortOrder) → Result (List (Text × SortOrder))
sort_schema_from [] sort = ok sort
sort_schema_from ((key, value) ∷ entries) sort = do
  o ← required (as_order value)
  check (truthy (trim key))
  sort_schema_from entries (put (trim key) o sort)

-- `SortSchema`, on the field `sort` that is there
unfoldable pub sort_schema : List (Text × SortValue) → Result (List (Text × SortOrder))
unfolding sort_schema_from
sort_schema entries = sort_schema_from entries []

-- A value of a search: one text, or several.
pub data SearchValue : Type 0 where
  one : Text → SearchValue
  many : List Text → SearchValue

-- the second refinement of `SearchHttpSchema`
abbrev pub is_valued : Text → Bool
is_valued search = every (λ s. truthy (last_part s)) (split 0x2c search)

abbrev pub chosen_value : (value : Text) → List Text → SearchValue
chosen_value value (v ∷ w ∷ vs) = many (v ∷ w ∷ vs)
chosen_value value (v ∷ []) = one (trim value)
chosen_value value [] = one (trim value)

abbrev pub search_value : Text → SearchValue
search_value value = chosen_value value (map trim (split 0x7c value))

-- `const [field, value] = s.split(':')`, and the entry
abbrev pub search_entry : List Text → Result (Text × SearchValue)
search_entry (field ∷ value ∷ _) = ok (field, search_value value)
search_entry _ = err (foreign type_error)

-- `search[field] = value` on an object: assigning to "__proto__" makes no key.
abbrev pub put_own : Text → SearchValue → List (Text × SearchValue) → List (Text × SearchValue)
put_own field value entries =
    if field === codes "__proto__" then entries else put field value entries

unfoldable pub search_entries :
    List Text → List (Text × SearchValue) → Result (List (Text × SearchValue))
search_entries [] entries = ok entries
search_entries (s ∷ rest) entries = do
  (field, value) ← search_entry (split 0x3a s)
  search_entries rest (put_own field value entries)

-- `SearchHttpSchema`; the answer is `null` for a missing or an empty text.
abbrev search_present : Option Text → Result (Option (List (Text × SearchValue)))
search_present none = ok none
search_present (some search) = do
  check (is_format search && is_valued search)
  entries ← search_entries (split 0x2c search) []
  ok (some entries)

unfoldable pub search_http_schema : Option Text → Result (Option (List (Text × SearchValue)))
unfolding search_entries
search_http_schema search = search_present (present search)
