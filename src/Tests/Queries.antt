-- ===== src/Tests/Queries.antt =====
-- Runs of the query parameters of a list, and of a list request.
use nestjs_microservice_boil.Base.{
  ◌===◌, split, ℕ, ◌≤◌, ◌⊎◌, true, false, none, List, arith, Text, codes, trim, ◌≡◌, refl, some, [],
  ◌∷◌,
}
use nestjs_microservice_boil.Query.Printing.{IsName, print_sort, sort_http_schema-print_sort}
use nestjs_microservice_boil.Query.{
  search_http_schema, sort_http_schema, one, many, type_error, order, SearchValue,
}
use nestjs_microservice_boil.Exception.{err, foreign, ok}
use nestjs_microservice_boil.Query.Searching.{print_search, search_http_schema-print_search}
use nestjs_microservice_boil.Store.Page.{desc, asc, PaginationInput}
use nestjs_microservice_boil.Query.Crashes.{schemas-crash}
use nestjs_microservice_boil.Entity.Events.{
  AddEventInput, EventsMap, release_events, add_event, clear_events, get_events,
  release_events-add_all,
}
use nestjs_microservice_boil.Listing.Usecases.{ListRequest, list_usecase, name_filters, name_sorts}
use nestjs_microservice_boil.Listing.{Conversions}
use nestjs_microservice_boil.Number.{infinite, integer, pos}
use nestjs_microservice_boil.Pagination.{number}
use nestjs_microservice_boil.Store.Postgres.{Where}
use nestjs_microservice_boil.Exec.{Exec, pure}
use nestjs_microservice_boil.Tests.World.{start}
use nestjs_microservice_boil.Listing.Decorators.{convert_typeorm_filter, validate_sort_allowed}
use nestjs_microservice_boil.Listing.Usecases.Bounds.{
  list_usecase-IsPermitted, listing, listing_sort_first, IsAnswered,
}
use nestjs_microservice_boil.Value.{text}

abbrev lower : Text → Text
lower s = s

abbrev name_key : Text
name_key = codes "name"

name_key-IsName : IsName name_key
unfolding trim ◌===◌
name_key-IsName = ((refl, refl), refl, refl)

sort_http_schema-print_sort_example :
    sort_http_schema lower (some (print_sort ((name_key, desc) ∷ (codes "age", asc) ∷ [])))
    ≡ ok ((name_key, order desc) ∷ (codes "age", order asc) ∷ [])
unfolding trim ◌===◌
sort_http_schema-print_sort_example =
    sort_http_schema-print_sort lower refl refl (name_key, desc) ((codes "age", asc) ∷ [])
      (name_key-IsName, (((refl, refl), refl, refl), tt))

search_http_schema-print_search_example :
    search_http_schema (
      some (
        print_search
          ((name_key, one (codes "Tom")) ∷ (codes "age", many (codes "1" ∷ codes "2" ∷ [])) ∷ [])))
    ≡ ok (
        some
          ((name_key, one (codes "Tom")) ∷ (codes "age", many (codes "1" ∷ codes "2" ∷ [])) ∷ []))
unfolding trim ◌===◌
search_http_schema-print_search_example =
    search_http_schema-print_search (name_key, one (codes "Tom"))
      ((codes "age", many (codes "1" ∷ codes "2" ∷ [])) ∷ [])
      (
        (((refl, refl), refl, refl), ((refl, refl), refl, refl, refl)),
        (
          (
            ((refl, refl), refl, refl),
            (((refl, refl), refl, refl, refl), (((refl, refl), refl, refl, refl), tt)),
          ),
          tt,
        ),
      )

schemas-crash_example :
    (search_http_schema (some (codes "a:asc,asc")) ≡ err (foreign type_error))
    × (sort_http_schema lower (some (codes "a:asc,asc")) ≡ err (foreign type_error))
unfolding trim nestjs_microservice_boil.Base.split nestjs_microservice_boil.Base.◌===◌
schemas-crash_example = schemas-crash lower (codes "a:asc,asc") refl refl refl refl

abbrev conversions : Conversions
conversions = record {
  build_date = λ s. ok (text s);
  build_iso = λ s. ok (text s);
  to_number = λ s. infinite false;
  is_object_id = λ s. true;
  new_object_id = λ s. ok (text s);
}

abbrev list_request : ListRequest
list_request = record {
  page = some (number (integer (pos 2)));
  limit = some (number (integer (pos 500)));
  sort = none;
  search = some ((name_key, one (codes "Tom")) ∷ []);
}

abbrev tom_page : PaginationInput (List (Text × SearchValue)) → Exec (Unit {0}) ℕ
tom_page =
    convert_typeorm_filter conversions name_filters
      (validate_sort_allowed name_sorts (λ inner. pure inner.limit))

-- The page of at most 100 entries that the request gets.
tom_list : list_usecase (λ s. infinite false) tom_page list_request (start tt) ≡ (ok 100, start tt)
unfolding list_usecase nestjs_microservice_boil.Exec.validate_schema
    nestjs_microservice_boil.Pagination.pagination_schema nestjs_microservice_boil.Query.sort_schema
    convert_typeorm_filter nestjs_microservice_boil.Exec.◌>>=◌
    nestjs_microservice_boil.Listing.convert_typeorm ◌===◌ trim validate_sort_allowed
    nestjs_microservice_boil.Listing.validate_sort
tom_list = refl

abbrev limited : PaginationInput Where → Exec (Unit {0}) ℕ
limited inner = pure inner.limit

abbrev Answered : (ListRequest → Exec (Unit {0}) ℕ) → Type 0
Answered run =
    IsAnswered (λ s. infinite false) conversions name_filters name_sorts limited run list_request
      (start tt)

list_usecase-IsPermitted_example :
    Answered (listing (λ s. infinite false) conversions name_filters name_sorts limited)
    × Answered
        (listing_sort_first (λ s. infinite false) conversions name_filters name_sorts limited)
list_usecase-IsPermitted_example =
    list_usecase-IsPermitted (λ s. infinite false) conversions name_filters name_sorts limited
      list_request (start tt)

abbrev moved : AddEventInput
moved = record { name = codes "moved"; payload = text (codes "north") }

abbrev added : EventsMap
added = add_event 9 1 moved (add_event 8 1 moved (clear_events 1 (λ this. [])))

release_events-add_all_example :
    ((release_events 1 added).0
      ≡ record { name = codes "moved"; payload = text (codes "north"); occurred_at = 8 }
        ∷ record { name = codes "moved"; payload = text (codes "north"); occurred_at = 9 }
        ∷ [])
    × (get_events 1 (release_events 1 added).1 ≡ [])
    × (get_events 2 (release_events 1 added).1 ≡ get_events 2 (λ this. []))
release_events-add_all_example =
    release_events-add_all 1 2 ((8, moved) ∷ (9, moved) ∷ []) (λ this. []) (omega arith)
