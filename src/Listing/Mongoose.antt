-- ===== src/Listing/Mongoose.antt =====
-- The decorator of
-- utils/decorators/filter/mongoose/validate-mongoose-filter-fields.decorator.ts with the
-- patterns of utils/mongoose.ts, as far as it is a function of the search.
pub mod Patterns
use nestjs_microservice_boil.Base.{
  if◌then◌else◌, Text, codes, ◌===◌, trim, join, ℕ, not, Option, none, some, List, [], ◌∷◌, ◌++◌,
  map, filter, lookup, ◌==◌,
}
use nestjs_microservice_boil.Exception.{Result, ok, err, foreign, ◌>>=◌, ◌>>◌}
use nestjs_microservice_boil.Listing.{
  like, equal, filter_name, Conversions, AllowedFilter, convert_filter_value, wanted, check_keys,
  or_else,
}
use nestjs_microservice_boil.Value.{Value, text, object, array, null, Fields, end, field}
use nestjs_microservice_boil.Store.Commands.{items}
use nestjs_microservice_boil.Query.{one, many, SearchValue}
use nestjs_microservice_boil.Store.Filter.{deleted_at, id_key, mongo_id}

-- `s.replace(c, by)`: the first occurrence
unfoldable pub replace_first : ℕ → Text → Text → Text
replace_first c by [] = []
replace_first c by (x ∷ s) = let rest = replace_first c by s in if x == c then by ++ s else x ∷ rest

-- `s.replace(/c/g, by)`
unfoldable pub replace_all : ℕ → Text → Text → Text
replace_all c by [] = []
replace_all c by (x ∷ s) = let rest = replace_all c by s in if x == c then by ++ rest else x ∷ rest

-- `[a,b,...]`
abbrev pub bracket : Text → Text
bracket cs = 0x5b ∷ join (0x2c ∷ []) (map (λ c. c ∷ []) cs) ++ 0x5d ∷ []

-- `escapeParentheses`, on a text
unfoldable pub escape_parentheses : Text → Text
unfolding replace_first
escape_parentheses s = replace_first 0x29 (codes "\\)") (replace_first 0x28 (codes "\\(") s)

abbrev pub letters_a : Text
letters_a = 0x61 ∷ 0xe1 ∷ 0xe0 ∷ 0xe4 ∷ 0xe2 ∷ 0xe3 ∷ []

abbrev pub letters_e : Text
letters_e = 0x65 ∷ 0xe9 ∷ 0xeb ∷ 0xe8 ∷ 0xea ∷ []

abbrev pub letters_i : Text
letters_i = 0x69 ∷ 0xed ∷ 0xef ∷ 0xec ∷ 0xee ∷ []

abbrev pub letters_o : Text
letters_o = 0x6f ∷ 0xf3 ∷ 0xf6 ∷ 0xf2 ∷ 0xf4 ∷ []

abbrev pub letters_c : Text
letters_c = 0x63 ∷ 0xe7 ∷ []

abbrev pub letters_u : Text
letters_u = 0x75 ∷ 0xfc ∷ 0xfa ∷ 0xf9 ∷ []

-- `diacriticSensitiveRegex`, on a text
unfoldable pub diacritic_sensitive_regex : Text → Text
unfolding replace_all
diacritic_sensitive_regex s = replace_all 0x75 (bracket letters_u) (
    replace_all 0x63 (bracket letters_c) (
      replace_all 0x6f (bracket letters_o) (
        replace_all 0x69 (bracket letters_i)
          (replace_all 0x65 (bracket letters_e) (replace_all 0x61 (bracket letters_a) s)))))

unfoldable pub create_regex_filter_text : Text → Text
unfolding diacritic_sensitive_regex escape_parentheses
create_regex_filter_text s = diacritic_sensitive_regex (escape_parentheses s)

-- `{ [key]: value }`
abbrev only : Text → Value → Value
only key value = object (field key value end)

-- the entry of `$or` or `$and`, for a text
unfoldable pub condition : Conversions → AllowedFilter → Text → Result Value
unfolding create_regex_filter_text
condition conversions a v = elim a.search_type [
  | equal ↦ do
    x ← convert_filter_value conversions a.format v
    ok (only (or_else a.name a.mapped) x)
  | like ↦ ok (
      only (or_else a.name a.mapped) (
        object (
          field (codes "$regex") (text (create_regex_filter_text v))
            (field (codes "$options") (text (codes "i")) end))))
]

-- `$or` and `$and` as they are filled
abbrev pub Lists : Type 0
Lists = List Value × List Value

unfoldable pub conditions : Conversions → AllowedFilter → List Text → Result (List Value)
unfolding condition
conditions conversions a [] = ok []
conditions conversions a (v ∷ vs) = do
  x ← condition conversions a v
  xs ← conditions conversions a vs
  ok (x ∷ xs)

abbrev pub push_filter : Conversions → AllowedFilter → Option SearchValue → Lists → Result Lists
push_filter conversions a none lists = ok lists
push_filter conversions a (some (many vs)) (any_of, all_of) = do
  xs ← conditions conversions a vs
  ok (any_of ++ xs, all_of)
push_filter conversions a (some (one v)) (any_of, all_of) = do
  x ← condition conversions a v
  ok (any_of, all_of ++ x ∷ [])

-- the loop over the allowed filters
unfoldable pub push_filters :
    Conversions → List AllowedFilter → List (Text × SearchValue) → Lists → Result Lists
push_filters conversions [] asked lists = ok lists
push_filters conversions (a ∷ allowed) asked lists = do
  pushed ← push_filter conversions a (wanted conversions (lookup a.name asked)) lists
  push_filters conversions allowed asked pushed

-- A list that stays empty is deleted.
abbrev pub with_list : Text → List Value → Fields → Fields
with_list key [] fs = fs
with_list key (v ∷ vs) fs = field key (array (items (v ∷ vs))) fs

abbrev pub with_id : Option Text → Fields
with_id none = end
with_id (some id) = field mongo_id (text id) end

-- `input.search.id`: a text is taken over, and a list has no `trim`.
abbrev pub id_of : Option SearchValue → Result (Option Text)
id_of none = ok none
id_of (some (one v)) = ok (some (trim v))
id_of (some (many _)) = err (foreign "input.search.id.trim is not a function")

-- `delete input.search.id`
abbrev pub without_id : Option Text → List (Text × SearchValue) → List (Text × SearchValue)
without_id none asked = asked
without_id (some _) asked = filter (λ (e : Text × SearchValue). not (e.0 === id_key)) asked

abbrev pub found_filter : Lists → Option Text → Fields
found_filter (any_of, all_of) id =
    with_list (codes "$or") any_of
      (with_list (codes "$and") all_of (field deleted_at null (with_id id)))

unfoldable pub pushed :
    Conversions → List AllowedFilter → List (Text × SearchValue) → Option Text → Result Fields
unfolding push_filters
pushed conversions allowed rest id = do
  lists ← push_filters conversions allowed rest ([], [])
  ok (found_filter lists id)

unfoldable pub checked :
    Conversions → List AllowedFilter → List (Text × SearchValue) → Option Text → Result Fields
unfolding pushed
checked conversions allowed rest id = do
  check_keys (codes "filter ") (map (filter_name conversions) allowed)
      (map (filter_name conversions) allowed) rest
  pushed conversions allowed rest id

unfoldable pub convert_mongoose :
    Conversions → List AllowedFilter → List (Text × SearchValue) → Result Fields
unfolding checked
convert_mongoose conversions allowed asked = do
  id ← id_of (wanted conversions (lookup id_key asked))
  checked conversions allowed (without_id id asked) id
