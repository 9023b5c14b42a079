-- ===== src/Tests/Strays.antt =====
-- A Mongo collection of cats, and what is asked of it.
use nestjs_microservice_boil.Listing.Cats.{cat_list}
use nestjs_microservice_boil.Query.{one}
use nestjs_microservice_boil.Base.{
  ◌⊎◌, ◌++◌, trim, find, length, filter, All, Text, codes, ◌===◌, ===_iff, ℕ, ◌≡◌, refl, sym, ap,
  ◌∙◌, ◌≢◌, ◌↔◌, inr, Bool, true, false, Option, none, some, List, [], ◌∷◌, map, arith,
  if◌then◌else◌,
}
use nestjs_microservice_boil.Store.Mongo.Port.{repository}
use nestjs_microservice_boil.Cat.Usecases.{delete, get_by_id}
use nestjs_microservice_boil.Value.{text, opaque, end, Fields}
use nestjs_microservice_boil.Cat.{CatEntity}
use nestjs_microservice_boil.Exec.{World}
use nestjs_microservice_boil.Repository.{Repository}
use nestjs_microservice_boil.Store.Mongo.Cats.{RemoveLaws, get_by_id-delete_found}
use nestjs_microservice_boil.Store.Document.{Host}
use nestjs_microservice_boil.Tests.World.{platform, start}
use nestjs_microservice_boil.Exception.{err, ok, Result, Exception}
use nestjs_microservice_boil.Number.{integer, pos}
use nestjs_microservice_boil.Entity.{no_stamps, value, Nullish}
use nestjs_microservice_boil.Listing.Mongoose.{diacritic_sensitive_regex}
use nestjs_microservice_boil.Listing.Usecases.{ListRequest}
use nestjs_microservice_boil.Listing.{Conversions}
use nestjs_microservice_boil.Listing.Mongoose.Patterns.{diacritic_sensitive_regex-any_marks}
use nestjs_microservice_boil.Listing.Cats.Dated.{IsAsked, cat_list-IsAsked}
use mathlib.Core.Option
use nestjs_microservice_boil.Tests.Documents.{empty_model, name_key, shown, digits}

-- What is stored: a cat, found by its id whether it is deleted or not.
abbrev tom : CatEntity
tom = record {
  id = codes "c1";
  name = codes "Tom";
  breed = codes "grey";
  age = integer (pos 3);
  stamps = no_stamps;
}

-- An update also moves the date of the last update.
abbrev with_dates : Nullish ℕ → CatEntity → CatEntity
with_dates date cat = record cat {
  stamps = record cat.stamps { updated_at = date; deleted_at = date };
}

abbrev by_key : Text → Option CatEntity → Option CatEntity
by_key id none = none
by_key id (some cat) = if cat.id === id then some cat else none

abbrev cat_host : Host (Option CatEntity) CatEntity CatEntity
cat_host = record {
  model = record empty_model {
    find_by_id = λ id d. ok (by_key id d);
    find_one_and_update = λ fs updated d. (ok d, Option.map (with_dates (value 9)) d);
  };
  to_object = λ cat. cat;
  to_plain = λ cat. cat;
  to_string = shown;
  digits = digits;
}

by_key-id :
    (id : Text) (cat : CatEntity) (d : Option CatEntity) → by_key id d ≡ some cat → cat.id ≡ id
by_key-id id cat none h = absurd (ground (arith, h))
by_key-id id cat (some old) h = ground (arith, h, ===_iff old.id id)

by_key-with_dates :
    (id : Text) (cat : CatEntity) (d : Option CatEntity)
    → by_key id d ≡ some cat
    → by_key id (Option.map (with_dates (value 9)) d) ≡ some (with_dates (value 9) cat)
by_key-with_dates id cat none h = absurd (ground (arith, h))
by_key-with_dates id cat (some old) h = ground (arith, h)

cat_host-RemoveLaws : RemoveLaws cat_host (opaque (codes "today"))
cat_host-RemoveLaws = record {
  find_by_id-id = λ id m d h. by_key-id id m d (cc h);
  find_by_id-find_one_and_update = λ id m found d d' h u. (
    with_dates (value 9) m,
    record m.stamps { updated_at = value 9; deleted_at = value 9 },
    ap (λ (x : Result (Option CatEntity) × Option CatEntity). ok (by_key id x.1)) (sym u)
        ∙ ap ok (by_key-with_dates id m d (cc h)),
    refl,
  );
}

abbrev c1 : Text
c1 = codes "c1"

abbrev written : Option CatEntity → Fields
written _ = end

abbrev stored_cats : Repository (Option CatEntity) CatEntity
stored_cats = repository cat_host written [] (opaque (codes "today"))

abbrev deleted : World (Option CatEntity)
deleted = (delete platform stored_cats (codes "me") 7 (some c1) (start (some tom))).1

abbrev gone : Option CatEntity
gone = some (record tom {
  stamps = record { created_at = value 7; updated_at = value 7; deleted_at = value 7 };
})

delete_runs :
    delete platform stored_cats (codes "me") 7 (some c1) (start (some tom)) ≡ (ok gone, deleted)
unfolding delete nestjs_microservice_boil.Exec.validate_schema nestjs_microservice_boil.Cat.parse_id
    nestjs_microservice_boil.Exec.◌>>=◌ repository nestjs_microservice_boil.Store.try_catch ◌===◌
    nestjs_microservice_boil.Entity.construct nestjs_microservice_boil.Cat.parse
    nestjs_microservice_boil.Base.trim nestjs_microservice_boil.Entity.to_object
    nestjs_microservice_boil.Entity.deactivate
delete_runs = refl

get_by_id-delete_found_example :
    (cat : CatEntity) × (get_by_id platform stored_cats 8 (some c1) deleted
      ≡ (ok (some cat), deleted))
    × (cat.id ≡ c1)
get_by_id-delete_found_example =
    get_by_id-delete_found platform cat_host written (opaque (codes "today")) cat_host-RemoveLaws
      (codes "me") c1 7 8 gone (start (some tom)) deleted refl delete_runs

abbrev conversions : Conversions
conversions = record {
  build_date = λ s. ok (text s);
  build_iso = λ s. ok (text s);
  to_number = λ s. integer (pos 3);
  is_object_id = λ s. true;
  new_object_id = λ s. ok (text s);
}

abbrev cat_request : ListRequest
cat_request = record {
  page = none;
  limit = none;
  sort = none;
  search = some ((name_key, one (codes "Tom")) ∷ (codes "age", one (codes "3")) ∷ []);
}

cat_list-IsAsked_example :
    ((e : Exception) × (cat_list platform 7 cat_host
          (λ s. integer (pos 3))
          conversions
          cat_request
          (start (some tom))
        ≡ (err e, start (some tom))))
    ⊎ IsAsked platform 7 cat_host (λ s. integer (pos 3)) conversions cat_request (start (some tom))
cat_list-IsAsked_example =
    cat_list-IsAsked platform 7 cat_host (λ s. integer (pos 3)) conversions cat_request
      (start (some tom))

diacritic_sensitive_regex-any_marks_example :
    diacritic_sensitive_regex (codes "cx") ≡ codes "[c," ++ 0xe7 ∷ codes "]x"
diacritic_sensitive_regex-any_marks_example = diacritic_sensitive_regex-any_marks (codes "cx")
