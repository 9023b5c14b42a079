-- ===== src/Listing/Cats/Dated.antt =====
-- What a list request on cats asks for.
use nestjs_microservice_boil.Base.{
  Text, ◌===◌, ℕ, ◌≤◌, ◌≡◌, refl, ◌∙◌, ◌⊎◌, inl, inr, Option, some, List, [], ◌∷◌, arith, lookup,
  codes, map,
}
use nestjs_microservice_boil.Value.{Fields, null, get, Value}
use nestjs_microservice_boil.Exception.{
  Exception, Result, ok, err, bind-eq-ok, api, bad_request, issues,
}
use nestjs_microservice_boil.Listing.Usecases.{ListRequest, list_schema, list_usecase}
use nestjs_microservice_boil.Listing.Usecases.Bounds.{list_schema-bounds}
use nestjs_microservice_boil.Listing.Cats.{
  convert_mongoose_filter, cat_list, paginate_cats, cat_filters, cat_sorts,
}
use nestjs_microservice_boil.Exec.{World, validate_schema}
use nestjs_microservice_boil.Exec.Chain.{lift-ok, lift-err}
use nestjs_microservice_boil.Store.Document.{Host}
use nestjs_microservice_boil.Cat.{CatEntity}
use nestjs_microservice_boil.Platform.{Platform}
use nestjs_microservice_boil.Listing.Mongoose.{
  convert_mongoose, found_filter, pushed, checked, push_filters, id_of, without_id,
}
use nestjs_microservice_boil.Number.{Number}
use nestjs_microservice_boil.Store.Filter.{deleted_at, id_key}
use nestjs_microservice_boil.Listing.{
  Conversions, AllowedFilter, validate_sort, filter_name, wanted, check_keys,
}
use nestjs_microservice_boil.Store.Page.{PaginationInput, SortOrder}
use nestjs_microservice_boil.Listing.Decorators.{validate_sort_allowed}
use nestjs_microservice_boil.Query.{SearchValue}
use nestjs_microservice_boil.Entity.{or_else}
use mathlib.Core.Path.{subst}

with_list-deleted_at :
    (any_of all_of : List Value) (id : Option Text)
    → get deleted_at (found_filter (any_of, all_of) id) ≡ some null
unfolding get ◌===◌
with_list-deleted_at [] [] id = refl
with_list-deleted_at [] (v ∷ vs) id = refl
with_list-deleted_at (v ∷ vs) [] id = refl
with_list-deleted_at (v ∷ vs) (x ∷ xs) id = refl

pushed-deleted_at :
    (conversions : Conversions) (allowed : List AllowedFilter) (rest : List (Text × SearchValue))
    (id : Option Text) (found : Fields)
    → pushed conversions allowed rest id ≡ ok found
    → get deleted_at found ≡ some null
unfolding pushed
pushed-deleted_at conversions allowed rest id found h =
    let (lists, _, made) =
      bind-eq-ok (push_filters conversions allowed rest ([], [])) (λ l. ok (found_filter l id)) h in
    subst (λ r. get deleted_at r ≡ some null) (ground (arith, made))
      (with_list-deleted_at lists.0 lists.1 id)

convert_mongoose-deleted_at :
    (conversions : Conversions) (allowed : List AllowedFilter) (asked : List (Text × SearchValue))
    (found : Fields)
    → convert_mongoose conversions allowed asked ≡ ok found
    → get deleted_at found ≡ some null
unfolding convert_mongoose checked
convert_mongoose-deleted_at conversions allowed asked found h =
    let (id, _, accepted) =
      bind-eq-ok (id_of (wanted conversions (lookup id_key asked)))
        (λ id. checked conversions allowed (without_id id asked) id) h in
    let names = map (filter_name conversions) allowed in
    let (_, _, made) =
      bind-eq-ok (check_keys (codes "filter ") names names (without_id id asked))
        (λ _. pushed conversions allowed (without_id id asked) id) accepted in
    pushed-deleted_at conversions allowed (without_id id asked) id found made

module _ {D M : Type 0} (p : Platform) (now : ℕ) (host : Host D M CatEntity)
    (to_number : Text → Number) (conversions : Conversions) where
  -- The request reached the method, with this filter.
  abbrev pub IsAsked : ListRequest → World D → Type 0
  IsAsked request w =
      (inner : PaginationInput Fields) × (found : Fields) × (cat_list p now host to_number
          conversions request w
        ≡ paginate_cats p now host inner w)
      × (inner.search ≡ some found)
      × (get deleted_at found ≡ some null)
      × (1 ≤ inner.page)
      × (1 ≤ inner.limit)
      × (inner.limit ≤ 100)

  decided :
      (input : PaginationInput (List (Text × SearchValue))) (s : Result (List (Text × SortOrder)))
      (c : Result Fields) (request : ListRequest) (w : World D)
      → list_schema to_number request ≡ ok input
      → validate_sort cat_sorts input.sort ≡ s
      → convert_mongoose conversions cat_filters (or_else [] input.search) ≡ c
      → ((e : Exception) × (cat_list p now host to_number conversions request w ≡ (err e, w)))
        ⊎ IsAsked request w
  unfolding cat_list list_usecase validate_schema validate_sort_allowed convert_mongoose_filter
  decided input (err e) c request w h q k =
      inl (e, rw h (lift-err (validate_sort cat_sorts input.sort) _ w e q))
  decided input (ok sort) (err e) request w h q k = inl (
    e,
    rw h (
        lift-ok (validate_sort cat_sorts input.sort) _ w sort q
        ∙ lift-err (convert_mongoose conversions cat_filters (or_else [] input.search)) _ w e k),
  )
  decided input (ok sort) (ok found) request w h q k =
      let (page, low, high) = list_schema-bounds to_number request input h in
      inr (
        record { page = input.page; limit = input.limit; sort = sort; search = some found },
        found,
        rw h (
            lift-ok (validate_sort cat_sorts input.sort) _ w sort q
            ∙ lift-ok (convert_mongoose conversions cat_filters (or_else [] input.search)) _ w found
                k),
        refl,
        convert_mongoose-deleted_at conversions cat_filters (or_else [] input.search) found k,
        page,
        low,
        high,
      )

  asked :
      (r : Result (PaginationInput (List (Text × SearchValue)))) (request : ListRequest)
      (w : World D)
      → list_schema to_number request ≡ r
      → ((e : Exception) × (cat_list p now host to_number conversions request w ≡ (err e, w)))
        ⊎ IsAsked request w
  unfolding cat_list list_usecase validate_schema
  asked (err e) request w h = inl (api bad_request issues, rw h refl)
  asked (ok input) request w h = decided input _ _ request w h refl refl

  -- A list request on cats, whatever it asks for, is refused with nothing done, or it asks the model
  -- for a page from 1 on, for between 1 and 100 documents, and only for cats without a date of
  -- deletion.
  pub cat_list-IsAsked :
      (request : ListRequest) (w : World D)
      → ((e : Exception) × (cat_list p now host to_number conversions request w ≡ (err e, w)))
        ⊎ IsAsked request w
  cat_list-IsAsked request w = asked (list_schema to_number request) request w refl
