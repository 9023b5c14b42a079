-- ===== src/Listing/Usecases.antt =====
-- The use cases that list entities (core/*/use-cases/*-list.ts) over the repositories of
-- modules/*/repository.ts that stand on Postgres. `conversions` and `to_number` are the runtime's.
pub mod Bounds
use mathlib.Core.Option
use nestjs_microservice_boil.Base.{
  codes, ℕ, Text, Option, none, some, List, [], ◌∷◌, put, trim, map,
}
use nestjs_microservice_boil.Number.{Number, integer, pos}
use nestjs_microservice_boil.Platform.{Platform}
use nestjs_microservice_boil.Entity.{Shape, construct, to_object, or_else}
use nestjs_microservice_boil.Exception.{Result, ok, err, ◌>>=◌ as bind}
use nestjs_microservice_boil.Exec.{Exec, lift, pure, ◌>>=◌, validate_schema}
use nestjs_microservice_boil.Pagination.{Parameter, pagination_schema}
use nestjs_microservice_boil.Query.{SortValue, SearchValue, sort_schema}
use nestjs_microservice_boil.Store.Page.{PaginationInput, PaginationOutput}
use nestjs_microservice_boil.Store.Postgres.{TypeOrm, Where, apply_pagination}
use nestjs_microservice_boil.Value.{Fields}
use nestjs_microservice_boil.Listing.{
  AllowedSort, AllowedFilter, Conversions, SearchType, like, equal,
}
use nestjs_microservice_boil.Listing.Decorators.{validate_sort_allowed, convert_typeorm_filter}
use nestjs_microservice_boil.Permission
use nestjs_microservice_boil.Role
use nestjs_microservice_boil.User
use nestjs_microservice_boil.Bird

-- The body of a list request. A missing `sort` or `search` is `{}` by default, and a `null` one
-- is treated alike.
pub record ListRequest : Type 0 where
  pub page : Option Parameter
  pub limit : Option Parameter
  pub sort : Option (List (Text × SortValue))
  pub search : Option (List (Text × SearchValue))

abbrev trim_keys : List (Text × SearchValue) → List (Text × SearchValue) → List (Text × SearchValue)
trim_keys [] search = search
trim_keys ((key, value) ∷ entries) search = trim_keys entries (put (trim key) value search)

-- `SearchSchema`, whose values are texts and lists of texts here
unfoldable pub search_schema : List (Text × SearchValue) → List (Text × SearchValue)
search_schema entries = trim_keys entries []

-- A number that the schema of pages lets through.
abbrev pub natural : Number → ℕ
natural (integer (pos n)) = n
natural _ = 0

-- `UserListSchema`, and those of the other lists
unfoldable pub list_schema :
    (Text → Number) → ListRequest → Result (PaginationInput (List (Text × SearchValue)))
unfolding search_schema
list_schema to_number request =
    bind (pagination_schema to_number request.page request.limit) λ pagination.
      bind (sort_schema (or_else [] request.sort)) λ sort. ok (record {
        page = natural pagination.page;
        limit = natural pagination.limit;
        sort = sort;
        search = some (search_schema (or_else [] request.search));
      })

module _ {O E : Type 0} (shape : Shape O E) (now : ℕ) where
  -- `docs.map((doc) => new Entity(doc).toObject())`
  abbrev pub entities : List E → Result (List (Option E))
  entities [] = ok []
  entities (doc ∷ docs) =
      bind (construct shape now (shape.object doc))
        λ entity. bind (entities docs) λ rest. ok (to_object shape entity ∷ rest)

  -- the method under the decorators
  unfoldable pub paginate_entities :
      {D : Type 0}
      → TypeOrm D E
      → (E → Fields)
      → PaginationInput Where
      → Exec D (PaginationOutput (Option E))
  unfolding apply_pagination
  paginate_entities orm row input = do
    page ← apply_pagination orm row input
    docs ← lift (entities page.docs)
    pure (record { docs = docs; total = page.total; page = page.page; limit = page.limit })

abbrev pub like_filter : Text → AllowedFilter
like_filter name = record { search_type = like; mapped = none; format = none; name = name }

abbrev pub sort_field : Text → AllowedSort
sort_field name = record { name = name; mapped = none }

abbrev pub name_filters : List AllowedFilter
name_filters = like_filter (codes "name") ∷ []

abbrev pub name_sorts : List AllowedSort
name_sorts = sort_field (codes "name") ∷ sort_field (codes "createdAt") ∷ []

abbrev pub user_filters : List AllowedFilter
user_filters =
    record { search_type = equal; mapped = none; format = none; name = codes "email" }
    ∷ like_filter (codes "name")
    ∷ []

abbrev pub user_sorts : List AllowedSort
user_sorts =
    sort_field (codes "email") ∷ sort_field (codes "name") ∷ sort_field (codes "createdAt") ∷ []

-- A use case that hands its parsed input to the decorated `paginate`.
unfoldable pub list_usecase :
    {D A : Type 0}
    → (Text → Number)
    → (PaginationInput (List (Text × SearchValue)) → Exec D A)
    → ListRequest
    → Exec D A
unfolding list_schema
list_usecase to_number paginate request = validate_schema (list_schema to_number request) paginate

module _ {D : Type 0} (p : Platform) (to_number : Text → Number) (conversions : Conversions)
    (now : ℕ) where
  module _ (orm : TypeOrm D Permission.PermissionEntity)
      (row : Permission.PermissionEntity → Fields) where
    unfoldable pub permission_list :
        ListRequest → Exec D (PaginationOutput (Option Permission.PermissionEntity))
    unfolding list_usecase paginate_entities
    permission_list = list_usecase to_number (
        convert_typeorm_filter conversions name_filters
          (validate_sort_allowed name_sorts (paginate_entities (Permission.shape p) now orm row)))

  module _ (orm : TypeOrm D Role.RoleEntity) (row : Role.RoleEntity → Fields) where
    unfoldable pub role_list : ListRequest → Exec D (PaginationOutput (Option Role.RoleEntity))
    unfolding list_usecase paginate_entities
    role_list = list_usecase to_number (
        convert_typeorm_filter conversions name_filters
          (validate_sort_allowed name_sorts (paginate_entities (Role.shape p) now orm row)))

  module _ (orm : TypeOrm D User.UserEntity) (row : User.UserEntity → Fields) where
    unfoldable pub user_list : ListRequest → Exec D (PaginationOutput (Option User.UserEntity))
    unfolding list_usecase paginate_entities
    user_list = list_usecase to_number (
        convert_typeorm_filter conversions user_filters
          (validate_sort_allowed user_sorts (paginate_entities (User.shape p) now orm row)))

  module _ (orm : TypeOrm D Bird.BirdEntity) (row : Bird.BirdEntity → Fields) where
    unfoldable pub bird_list : ListRequest → Exec D (PaginationOutput (Option Bird.BirdEntity))
    unfolding list_usecase paginate_entities
    bird_list = list_usecase to_number (
        validate_sort_allowed name_sorts (
          convert_typeorm_filter conversions name_filters
            (paginate_entities (Bird.shape p) now orm row)))
