-- ===== src/Tests/Utils.antt =====
-- Runs of the helpers under utils/.
use nestjs_microservice_boil.Base.{
  ◌+◌, ◌*◌, All, includes, ◌⊎◌, ◌≢◌, trim, codes, ℕ, Text, true, false, not, Option, none, some,
  List, [], ◌∷◌, ◌++◌, ◌≡◌, ◌≤◌, refl, length, filter, ◌===◌, arith,
}
use nestjs_microservice_boil.Exception.{ok, data_of}
use nestjs_microservice_boil.Entity.{
  or_else, no_stamps, construct, to_object, merge, is_active, is_deleted, activate, deactivate,
  value, undefined,
}
use nestjs_microservice_boil.Number.{Number, integer, pos, infinite}
use nestjs_microservice_boil.Entity.Lifecycle.{status_inverted}
use nestjs_microservice_boil.Pagination.{
  Pagination, Parameter, number, pagination_schema, calculate_total_pages,
}
use nestjs_microservice_boil.Pagination.Laws.{pagination_schema-bounds, pages-total, pages}
use nestjs_microservice_boil.Cat.{CatEntity, CatObject, shape, object, parse, spread, empty}
use nestjs_microservice_boil.Cat.Laws.{to_object-merge_cat}
use nestjs_microservice_boil.Tests.World.{platform}

status_inverted_example :
    (is_active (deactivate 7 no_stamps) ≡ true)
    × (is_deleted (deactivate 7 no_stamps) ≡ false)
    × (is_active (activate no_stamps) ≡ false)
    × (is_deleted (activate no_stamps) ≡ true)
    × (is_deleted no_stamps ≡ not (is_active no_stamps))
status_inverted_example = status_inverted 7 no_stamps

abbrev to_number : Text → Number
to_number s = infinite false

abbrev request : Pagination
request = record { page = integer (pos 2); limit = integer (pos 100) }

accepted :
    pagination_schema to_number
      (some (number (integer (pos 2))))
      (some (Parameter.string (codes "Infinity")))
    ≡ ok request
unfolding pagination_schema
accepted = refl

pagination_schema-bounds_example :
    (k n : ℕ) × (integer (pos 2) ≡ integer (pos k))
    × (1 ≤ k)
    × (integer (pos 100) ≡ integer (pos n))
    × (1 ≤ n)
    × (n ≤ 100)
pagination_schema-bounds_example =
    pagination_schema-bounds to_number (some (number (integer (pos 2))))
      (some (Parameter.string (codes "Infinity"))) request accepted

abbrev docs : List ℕ
docs = 1 ∷ 2 ∷ 3 ∷ 4 ∷ 5 ∷ []

pages-total_example :
    (n : ℕ) × (calculate_total_pages 2 (length docs) ≡ integer (pos n))
    × (pages n 2 docs ≡ docs)
    × (n * 2 + 1 ≤ length docs + 2)
pages-total_example = pages-total 2 docs (omega arith)

abbrev made : CatEntity
made = record {
  id = codes "c1";
  name = codes "Tom";
  breed = codes "grey";
  age = integer (pos 3);
  stamps = record { created_at = value 7; updated_at = value 7; deleted_at = undefined };
}

abbrev change : CatObject
change = record empty { name = some (codes " Felix ") }

abbrev merged : CatEntity
merged = record made { name = codes " Felix " }

parse_runs : parse platform (object made) ≡ ok made
unfolding parse nestjs_microservice_boil.Base.trim
parse_runs = refl

merge_runs : merge (shape platform) made change ≡ ok merged
unfolding merge parse nestjs_microservice_boil.Base.trim
    nestjs_microservice_boil.Entity.assign_stamps
merge_runs = refl

to_object-merge_cat_example :
    to_object (shape platform) merged ≡ data_of (parse platform (spread (object made) change))
to_object-merge_cat_example =
    to_object-merge_cat platform made made merged change parse_runs merge_runs
