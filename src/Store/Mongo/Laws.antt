-- ===== src/Store/Mongo/Laws.antt =====
-- What the reads of the Mongo repository can return.
use nestjs_microservice_boil.Base.{
  filter, ◌===◌, All, Text, List, [], ◌∷◌, Option, none, some, map, ◌≡◌, refl, arith,
}
use nestjs_microservice_boil.Exception.{Result, ok, err, api, api_database, literal}
use nestjs_microservice_boil.Exec.{Exec, World, ◌>>=◌, query, pure}
use nestjs_microservice_boil.Value.{null, Fields, get}
use nestjs_microservice_boil.Store.{handle_database_error, try_catch}
use nestjs_microservice_boil.Store.Filter.{deleted_at, convert_filter, convert_argument}
use nestjs_microservice_boil.Store.Filter.Laws.{convert_filter-dated}
use nestjs_microservice_boil.Store.Commands.{OperationCommand, build_command_filter}
use nestjs_microservice_boil.Store.Commands.Laws.{build_command_filter-dated}
use nestjs_microservice_boil.Store.Mongo
use nestjs_microservice_boil.Store.Document.{Model, Host}
use mathlib.Core.Option
use mathlib.Core.Path.{subst, sym}

abbrev pub AllOf {ℓ} : {A : Type 0} → (A → Type ℓ) → Result (List A) → Type ℓ
AllOf P (ok xs) = All P xs
AllOf P (err e) = Unit

abbrev pub AnyOf {ℓ} : {A : Type 0} → (A → Type ℓ) → Result (Option A) → Type ℓ
AnyOf P (ok (some x)) = P x
AnyOf P (ok none) = Unit
AnyOf P (err e) = Unit

-- What the reads rely on in Mongoose: a search whose filter has `deletedAt: null` returns documents
-- without a date of deletion only.
pub record ReadLaws {D M O : Type 0} (model : Model D M) (to_object : M → O) (IsLive : O → Type 0)
    : Type 0 where
  pub find-IsLive :
      (filter : Fields) (d : D)
      → get deleted_at filter ≡ some null
      → AllOf (λ m. IsLive (to_object m)) (model.find filter d)
  pub find_one-IsLive :
      (filter : Fields) (d : D)
      → get deleted_at filter ≡ some null
      → AnyOf (λ m. IsLive (to_object m)) (model.find_one filter d)

module _ {D M O : Type 0} (host : Host D M O) (IsLive : O → Type 0)
    (laws : ReadLaws host.model host.to_object IsLive) where
  open host use {model, to_object, to_string}

  All-map : (ms : List M) → All (λ m. IsLive (to_object m)) ms → All IsLive (map to_object ms)
  All-map [] h = tt
  All-map (m ∷ ms) (p, h) = (p, All-map ms h)

  -- The result of a search, once its documents are plain objects.
  abbrev plain_list : Result (List M) → Result (List O)
  plain_list (ok ms) = ok (map to_object ms)
  plain_list (err e) = err (handle_database_error e)

  abbrev plain_option : Result (Option M) → Result (Option O)
  plain_option (ok m) = ok (Option.map to_object m)
  plain_option (err e) = err (handle_database_error e)

  AllOf-plain :
      (r : Result (List M)) → AllOf (λ m. IsLive (to_object m)) r → AllOf IsLive (plain_list r)
  AllOf-plain (ok ms) h = All-map ms h
  AllOf-plain (err e) h = tt

  AnyOf-plain :
      (r : Result (Option M)) → AnyOf (λ m. IsLive (to_object m)) r → AnyOf IsLive (plain_option r)
  AnyOf-plain (ok (some m)) h = h
  AnyOf-plain (ok none) h = tt
  AnyOf-plain (err e) h = tt

  -- The body that the searches share.
  abbrev listed : Fields → Exec D (List O)
  listed filter =
      Mongo.caught host do results ← query (model.find filter); pure (map to_object results)

  abbrev single : Fields → Exec D (Option O)
  single filter =
      Mongo.caught host do found ← query (model.find_one filter); pure (Option.map to_object found)

  listed-eq :
      (r : Result (List M)) (filter : Fields) (w : World D)
      → model.find filter w.db ≡ r
      → (listed filter w).0 ≡ plain_list r
  unfolding try_catch ◌>>=◌
  listed-eq (ok ms) filter w h = ground (arith, h)
  listed-eq (err e) filter w h = ground (arith, h)

  single-eq :
      (r : Result (Option M)) (filter : Fields) (w : World D)
      → model.find_one filter w.db ≡ r
      → (single filter w).0 ≡ plain_option r
  unfolding try_catch ◌>>=◌
  single-eq (ok m) filter w h = ground (arith, h)
  single-eq (err e) filter w h = ground (arith, h)

  listed-IsLive :
      (filter : Fields) (w : World D)
      → get deleted_at filter ≡ some null
      → AllOf IsLive (listed filter w).0
  listed-IsLive filter w h =
      subst (AllOf IsLive) (sym (listed-eq (model.find filter w.db) filter w refl))
        (AllOf-plain (model.find filter w.db) (laws.find-IsLive filter w.db h))

  single-IsLive :
      (filter : Fields) (w : World D)
      → get deleted_at filter ≡ some null
      → AnyOf IsLive (single filter w).0
  single-IsLive filter w h =
      subst (AnyOf IsLive) (sym (single-eq (model.find_one filter w.db) filter w refl))
        (AnyOf-plain (model.find_one filter w.db) (laws.find_one-IsLive filter w.db h))

  by_commands-IsLive :
      (filter_list : List OperationCommand) (built : Result Fields) (w : World D)
      → build_command_filter to_string filter_list ≡ built
      → AllOf IsLive (Mongo.find_by_commands host filter_list w).0
  unfolding Mongo.find_by_commands ◌>>=◌ try_catch
  by_commands-IsLive filter_list (err e) w h = rw h tt
  by_commands-IsLive filter_list (ok filter) w h =
      rw h (listed-IsLive filter w (build_command_filter-dated to_string filter_list filter h))

  one_by_commands-IsLive :
      (filter_list : List OperationCommand) (built : Result Fields) (w : World D)
      → build_command_filter to_string filter_list ≡ built
      → AnyOf IsLive (Mongo.find_one_by_commands host filter_list w).0
  unfolding Mongo.find_one_by_commands ◌>>=◌ try_catch
  one_by_commands-IsLive filter_list (err e) w h = rw h tt
  one_by_commands-IsLive filter_list (ok filter) w h =
      rw h (single-IsLive filter w (build_command_filter-dated to_string filter_list filter h))

  -- What `find`, `findOne`, `findAll` with a filter, `findOr` and the two searches by commands
  -- return has no date of deletion, whatever is asked for, if no key of the filter is the empty
  -- text.
  pub reads-IsLive :
      (filter : Fields) (keys : List Text) (value : Text) (filter_list : List OperationCommand)
      (w : World D)
      → get [] filter ≡ none
      → AllOf IsLive (Mongo.find host filter w).0
        × AnyOf IsLive (Mongo.find_one host filter w).0
        × AllOf IsLive (Mongo.find_all host (some filter) w).0
        × AllOf IsLive (Mongo.find_or host keys value w).0
        × AllOf IsLive (Mongo.find_by_commands host filter_list w).0
        × AnyOf IsLive (Mongo.find_one_by_commands host filter_list w).0
  unfolding Mongo.find Mongo.find_one Mongo.find_all Mongo.find_or get ◌===◌
  reads-IsLive filter keys value filter_list w e =
      let dated = convert_filter-dated filter e in
      (
        listed-IsLive (convert_filter filter) w dated,
        single-IsLive (convert_filter filter) w dated,
        listed-IsLive (convert_filter filter) w dated,
        listed-IsLive _ w refl,
        by_commands-IsLive filter_list (build_command_filter to_string filter_list) w refl,
        one_by_commands-IsLive filter_list (build_command_filter to_string filter_list) w refl,
      )

-- The list of names that `findAllWithSelectFields` is given is made a plain object by the decorator
-- of its filter, so every call fails: whatever is asked for, nothing is read, and the error is of
-- class 500.
pub find_all_with_select_fields-fails :
    {D M O : Type 0} (host : Host D M O) (properties : List Text) (filter : Option Fields)
    (w : World D)
    → Mongo.find_all_with_select_fields host properties filter w
      ≡ (err (api api_database (literal "includeProperties.map is not a function")), w)
unfolding Mongo.find_all_with_select_fields convert_argument ◌>>=◌ try_catch handle_database_error
find_all_with_select_fields-fails host properties filter w = refl
