-- ===== src/Listing/Decorators.antt =====
-- The two decorators, as functions of the method that they are put on.
use nestjs_microservice_boil.Base.{Text, some, List, []}
use nestjs_microservice_boil.Entity.{or_else}
use nestjs_microservice_boil.Exec.{Exec, lift, ◌>>=◌}
use nestjs_microservice_boil.Query.{SearchValue}
use nestjs_microservice_boil.Store.Page.{PaginationInput}
use nestjs_microservice_boil.Store.Postgres.{Where}
use nestjs_microservice_boil.Listing.{
  AllowedSort, AllowedFilter, Conversions, validate_sort, convert_typeorm,
}

module _ {D A : Type 0} where
  -- `ValidateDatabaseSortAllowed`, around a method
  unfoldable pub validate_sort_allowed :
      {S : Type 0}
      → List AllowedSort
      → (PaginationInput S → Exec D A)
      → PaginationInput S
      → Exec D A
  validate_sort_allowed allowed method input =
      lift (validate_sort allowed input.sort) >>= λ sort. method (record input { sort = sort })

  -- `ConvertTypeOrmFilter`, around a method; the answer is an object also where no search is given.
  unfoldable pub convert_typeorm_filter :
      Conversions
      → List AllowedFilter
      → (PaginationInput Where → Exec D A)
      → PaginationInput (List (Text × SearchValue))
      → Exec D A
  convert_typeorm_filter conversions allowed method input =
      lift (convert_typeorm conversions allowed (or_else [] input.search)) >>= λ conditions.
      method (record {
        page = input.page;
        limit = input.limit;
        sort = input.sort;
        search = some conditions;
      })
