-- ===== src/Tests/Documents.antt =====
-- A Mongo collection of documents that are either live or deleted, and searches of it.
use nestjs_microservice_boil.Base.{
  length, filter, All, Text, codes, ◌===◌, ℕ, ◌≡◌, refl, ◌≢◌, ◌↔◌, Bool, true, false, Option, none,
  some, List, [], ◌∷◌, any, map,
}
use nestjs_microservice_boil.Collection.{is_inherited}
use nestjs_microservice_boil.Store.Commands.{
  equal, contains, OperationCommand, validate_find_by_commands_filter, is_like, is_equal,
}
use nestjs_microservice_boil.Value.{text, null, end, get, Fields, Value, field}
use nestjs_microservice_boil.Store.Models.{UpdatedModel}
use nestjs_microservice_boil.Store.Mongo.Laws.{
  ReadLaws, find_all_with_select_fields-fails, AllOf, AnyOf, reads-IsLive,
}
use nestjs_microservice_boil.Store.Document.{Host, Model}
use nestjs_microservice_boil.Tests.World.{start}
use nestjs_microservice_boil.Exception.{err, ok, api, api_database, literal}
use nestjs_microservice_boil.Store.Filter.{deleted_at}
use nestjs_microservice_boil.Store.Commands.Laws.{validate_find_by_commands_filter_iff}
use nestjs_microservice_boil.Store.Mongo

abbrev pub digits : ℕ → Text
digits n = n ∷ []

abbrev pub shown : Value → Text
shown (text s) = s
shown _ = []

abbrev none_updated : UpdatedModel
none_updated = record {
  matched_count = 0;
  modified_count = 0;
  acknowledged = true;
  upserted_id = 0;
  upserted_count = 0;
}

-- A model that holds nothing.
abbrev pub empty_model : {D M : Type 0} → Model D M
empty_model = record {
  find = λ filter d. ok [];
  find_one = λ filter d. ok none;
  find_by_id = λ id d. ok none;
  find_select = λ filter select d. ok [];
  find_one_select = λ filter select d. ok none;
  find_populate = λ filter paths d. ok [];
  find_one_populate = λ filter paths d. ok none;
  exists = λ filter d. ok false;
  paginate = λ filter page limit sort d. ok ([], 0);
  insert_many = λ documents d. (ok tt, d);
  save = λ document d. (ok [], d);
  update_one = λ filter updated d. (ok none_updated, d);
  update_many = λ filter updated d. (ok none_updated, d);
  find_one_and_update = λ filter updated d. (ok none, d);
  delete_one = λ filter d. (ok 0, d);
}

-- A document is whether it is live.
abbrev asks_live : Option Value → List Bool → List Bool
asks_live (some null) docs = filter (λ b. b) docs
asks_live _ docs = docs

abbrev first : {A : Type 0} → List A → Option A
first [] = none
first (x ∷ xs) = some x

abbrev flags : Host (List Bool) Bool Bool
flags = record {
  model = record empty_model {
    find = λ fs docs. ok (asks_live (get deleted_at fs) docs);
    find_one = λ fs docs. ok (first (asks_live (get deleted_at fs) docs));
  };
  to_object = λ b. b;
  to_plain = λ b. b;
  to_string = shown;
  digits = digits;
}

filter-live : (docs : List Bool) → All (λ b. b ≡ true) (filter (λ b. b) docs)
filter-live [] = tt
filter-live (true ∷ docs) = (refl, filter-live docs)
filter-live (false ∷ docs) = filter-live docs

first-live : (docs : List Bool) → AnyOf (λ b. b ≡ true) (ok (first (filter (λ b. b) docs)))
first-live [] = tt
first-live (true ∷ docs) = refl
first-live (false ∷ docs) = first-live docs

flags-ReadLaws : ReadLaws flags.model (λ b. b) (λ b. b ≡ true)
flags-ReadLaws = record {
  find-IsLive = λ fs docs h. rw h (filter-live docs);
  find_one-IsLive = λ fs docs h. rw h (first-live docs);
}

abbrev pub name_key : Text
name_key = codes "name"

abbrev tom_filter : Fields
tom_filter = field name_key (text (codes "Tom")) end

abbrev tom_commands : List OperationCommand
tom_commands = record { property = name_key; value = text (codes "Tom") ∷ []; command = equal } ∷ []

reads-IsLive_example :
    let w = start (true ∷ false ∷ []) in
    AllOf (λ b. b ≡ true) (Mongo.find flags tom_filter w).0
    × AnyOf (λ b. b ≡ true) (Mongo.find_one flags tom_filter w).0
    × AllOf (λ b. b ≡ true) (Mongo.find_all flags (some tom_filter) w).0
    × AllOf (λ b. b ≡ true) (Mongo.find_or flags (name_key ∷ []) (codes "Tom") w).0
    × AllOf (λ b. b ≡ true) (Mongo.find_by_commands flags tom_commands w).0
    × AnyOf (λ b. b ≡ true) (Mongo.find_one_by_commands flags tom_commands w).0
unfolding get ◌===◌
reads-IsLive_example =
    reads-IsLive flags (λ b. b ≡ true) flags-ReadLaws tom_filter (name_key ∷ []) (codes "Tom")
      tom_commands (start (true ∷ false ∷ [])) refl

find_all_with_select_fields-fails_example :
    Mongo.find_all_with_select_fields flags (name_key ∷ []) (some tom_filter) (start (true ∷ []))
    ≡ (
      err (api api_database (literal "includeProperties.map is not a function")),
      start (true ∷ []),
    )
find_all_with_select_fields-fails_example =
    find_all_with_select_fields-fails flags (name_key ∷ []) (some tom_filter) (start (true ∷ []))

abbrev contains_twice : List OperationCommand
contains_twice =
    record { property = name_key; value = text (codes "a") ∷ []; command = contains }
    ∷ record { property = name_key; value = text (codes "b") ∷ []; command = contains }
    ∷ []

validate_find_by_commands_filter_iff_example :
    (validate_find_by_commands_filter contains_twice ≡ ok tt) ↔ (
      (any is_inherited (map (λ c. c.property) contains_twice) ≡ false)
      × ((property : Text)
          → (length (filter is_like (filter (λ c. c.property === property) contains_twice)) ≢ 2)
            × (length (filter is_equal (filter (λ c. c.property === property) contains_twice))
                ≢ 2)))
validate_find_by_commands_filter_iff_example = validate_find_by_commands_filter_iff contains_twice
