-- ===== src/Listing/Cats.antt =====
-- The list of cats, which is kept in Mongo: core/cat/use-cases/cat-list.ts over
-- modules/cat/repository.ts.
pub mod Dated
use nestjs_microservice_boil.Base.{Text, codes, ℕ, Option, none, some, List, [], ◌∷◌}
use nestjs_microservice_boil.Exec.{Exec, lift, pure, ◌>>=◌}
use nestjs_microservice_boil.Listing.{
  equal, numeric, AllowedFilter, AllowedSort, Conversions, Number, PaginationInput, SearchValue,
  or_else,
}
use nestjs_microservice_boil.Listing.Usecases.{
  entities, like_filter, sort_field, ListRequest, list_usecase,
}
use nestjs_microservice_boil.Store.Document.{Host}
use nestjs_microservice_boil.Store.Mongo.{apply_pagination}
use nestjs_microservice_boil.Cat.{CatEntity, shape}
use nestjs_microservice_boil.Value.{Fields}
use nestjs_microservice_boil.Platform.{Platform}
use nestjs_microservice_boil.Store.Page.{PaginationOutput}
use nestjs_microservice_boil.Listing.Decorators.{validate_sort_allowed}
use nestjs_microservice_boil.Listing.Mongoose.{convert_mongoose}

-- `ConvertMongooseFilter`, around a method
unfoldable pub convert_mongoose_filter :
    {D A : Type 0}
    → Conversions
    → List AllowedFilter
    → (PaginationInput Fields → Exec D A)
    → PaginationInput (List (Text × SearchValue))
    → Exec D A
convert_mongoose_filter conversions allowed method input = do
  found ← lift (convert_mongoose conversions allowed (or_else [] input.search))
  method (record { page = input.page; limit = input.limit; sort = input.sort; search = some found })

abbrev pub cat_filters : List AllowedFilter
cat_filters =
    like_filter (codes "name")
    ∷ like_filter (codes "breed")
    ∷ record { search_type = equal; mapped = none; format = some numeric; name = codes "age" }
    ∷ []

abbrev pub cat_sorts : List AllowedSort
cat_sorts = sort_field (codes "createdAt") ∷ sort_field (codes "breed") ∷ []

module _ {D M : Type 0} (p : Platform) (now : ℕ) (host : Host D M CatEntity) where
  -- the method under the decorators
  unfoldable pub paginate_cats :
      PaginationInput Fields → Exec D (PaginationOutput (Option CatEntity))
  unfolding apply_pagination
  paginate_cats input = do
    page ← apply_pagination host input
    docs ← lift (entities (shape p) now page.docs)
    pure (record { docs = docs; total = page.total; page = page.page; limit = page.limit })

  unfoldable pub cat_list :
      (Text → Number) → Conversions → ListRequest → Exec D (PaginationOutput (Option CatEntity))
  unfolding list_usecase paginate_cats
  cat_list to_number conversions = list_usecase to_number (
      validate_sort_allowed cat_sorts
        (convert_mongoose_filter conversions cat_filters paginate_cats))
