-- ===== src/Listing/Orders.antt =====
-- The order in which a caller names its sort fields.
use nestjs_microservice_boil.Base.{lookup, Text, List, [], ◌∷◌, ◌≡◌, refl, arith}
use nestjs_microservice_boil.Exception.{ok, bind-eq-ok}
use nestjs_microservice_boil.Store.Page.{SortOrder}
use nestjs_microservice_boil.Listing.{AllowedSort, validate_sort, pick_sort}

pick_sort-lookup :
    (allowed : List AllowedSort) (s t sort : List (Text × SortOrder))
    → ((key : Text) → lookup key s ≡ lookup key t)
    → pick_sort allowed s sort ≡ pick_sort allowed t sort
unfolding pick_sort
pick_sort-lookup [] s t sort h = refl
pick_sort-lookup (a ∷ allowed) s t sort h = rw (h a.name) (pick_sort-lookup allowed s t _ h)

-- Two requests that ask for the same orders of the same fields, in whatever order they name them,
-- are sorted alike if both are accepted: which field comes first is not the caller's choice.
validate_sort-order_lost :
    (allowed : List AllowedSort) (s t p q : List (Text × SortOrder))
    → ((key : Text) → lookup key s ≡ lookup key t)
    → validate_sort allowed s ≡ ok p
    → validate_sort allowed t ≡ ok q
    → p ≡ q
unfolding validate_sort
validate_sort-order_lost allowed s t p q h k l =
    let (_, _, one) = bind-eq-ok _ (λ _. ok (pick_sort allowed s [])) k in
    let (_, _, two) = bind-eq-ok _ (λ _. ok (pick_sort allowed t [])) l in
    ground (arith, one, two, pick_sort-lookup allowed s t [] h)
