-- ===== src/Listing/Usecases/Bounds.antt =====
-- What a list request can ask the database for.
use nestjs_microservice_boil.Base.{[], Text, List, ◌≡◌, ◌≤◌, ◌⊎◌, inl, inr, refl, arith}
use nestjs_microservice_boil.Number.{Number}
use nestjs_microservice_boil.Entity.{or_else}
use nestjs_microservice_boil.Exception.{
  api, bad_request, issues, Result, ok, err, Exception, bind-eq-ok,
}
use nestjs_microservice_boil.Exec.{Exec, World, validate_schema}
use nestjs_microservice_boil.Pagination.{pagination_schema}
use nestjs_microservice_boil.Pagination.Laws.{pagination_schema-bounds}
use nestjs_microservice_boil.Query.{SearchValue, sort_schema}
use nestjs_microservice_boil.Store.Page.{PaginationInput}
use nestjs_microservice_boil.Store.Postgres.{Where}
use nestjs_microservice_boil.Listing.{AllowedSort, AllowedFilter, Conversions}
use nestjs_microservice_boil.Listing.Decorators.{validate_sort_allowed, convert_typeorm_filter}
use nestjs_microservice_boil.Listing.Allowed.{
  decorated-IsPermitted, decorated_sort_first-IsPermitted, IsPermitted,
}
use nestjs_microservice_boil.Listing.Usecases.{ListRequest, list_schema, list_usecase}

pub list_schema-bounds :
    (to_number : Text → Number) (request : ListRequest)
    (input : PaginationInput (List (Text × SearchValue)))
    → list_schema to_number request ≡ ok input
    → (1 ≤ input.page) × (1 ≤ input.limit) × (input.limit ≤ 100)
unfolding list_schema
list_schema-bounds to_number request input h =
    let (pagination, q, k) =
      bind-eq-ok (pagination_schema to_number request.page request.limit) _ h in
    let (sort, r, l) = bind-eq-ok (sort_schema (or_else [] request.sort)) _ k in
    let (page, limit, page_eq, one, limit_eq, low, high) =
      pagination_schema-bounds to_number request.page request.limit pagination q in
    ground (arith, l, page_eq, limit_eq)

module _ {D A : Type 0} (to_number : Text → Number) (conversions : Conversions)
    (filters : List AllowedFilter) (sorts : List AllowedSort)
    (method : PaginationInput Where → Exec D A) where
  -- The use case, over the repository's decorated method: the decorators in the order of the
  -- repositories that convert the filter first, and in the order of the birds.
  abbrev pub listing : ListRequest → Exec D A
  listing =
      list_usecase to_number
        (convert_typeorm_filter conversions filters (validate_sort_allowed sorts method))

  abbrev pub listing_sort_first : ListRequest → Exec D A
  listing_sort_first =
      list_usecase to_number
        (validate_sort_allowed sorts (convert_typeorm_filter conversions filters method))

  -- A list request is refused with nothing done, or it runs the method on a permitted page.
  abbrev pub IsAnswered : (ListRequest → Exec D A) → ListRequest → World D → Type 0
  IsAnswered run request w =
      ((e : Exception) × (run request w ≡ (err e, w)))
      ⊎ ((input : PaginationInput (List (Text × SearchValue))) × (inner : PaginationInput Where)
          × (list_schema to_number request ≡ ok input)
          × (run request w ≡ method inner w)
          × IsPermitted conversions filters sorts method input w inner
          × (1 ≤ inner.page)
          × (1 ≤ inner.limit)
          × (inner.limit ≤ 100))

  asked :
      (decorated : PaginationInput (List (Text × SearchValue)) → Exec D A)
      (r : Result (PaginationInput (List (Text × SearchValue)))) (request : ListRequest)
      (w : World D)
      → ((input : PaginationInput (List (Text × SearchValue)))
          → ((e : Exception) × (decorated input w ≡ (err e, w)))
            ⊎ ((inner : PaginationInput Where) × (decorated input w ≡ method inner w)
                × IsPermitted conversions filters sorts method input w inner))
      → list_schema to_number request ≡ r
      → IsAnswered (list_usecase to_number decorated) request w
  unfolding list_usecase validate_schema
  asked decorated (err e) request w permits h = inl (api bad_request issues, rw h refl)
  asked decorated (ok input) request w permits h =
      let (page, low, high) = list_schema-bounds to_number request input h in
      elim (permits input) [
        | inl (e, refused) ↦ inl (e, rw h refused)
        | inr (inner, same, permitted) ↦ inr (
          input,
          inner,
          h,
          rw h same,
          permitted,
          ground (arith, page, permitted.6),
          ground (arith, low, permitted.7),
          ground (arith, high, permitted.7),
        )
      ]

  -- A list request, whatever it asks for, is refused with nothing done, or it asks the repository
  -- for a page from 1 on and for between 1 and 100 documents, with conditions on the columns of
  -- the allowed filters only and orders of the columns of the allowed sort fields only; and each
  -- field that the schema reads from the request is then one of the allowed ones. This holds for
  -- both orders of the decorators.
  pub list_usecase-IsPermitted :
      (request : ListRequest) (w : World D)
      → IsAnswered listing request w × IsAnswered listing_sort_first request w
  list_usecase-IsPermitted request w = (
    asked _ (list_schema to_number request) request w
        (λ input. decorated-IsPermitted conversions filters sorts method input w) refl,
    asked _ (list_schema to_number request) request w
        (λ input. decorated_sort_first-IsPermitted conversions filters sorts method input w) refl,
  )
