-- ===== src/Store/Mongo/Port.antt =====
-- The Mongo repository as an implementation of the interface that the use cases call.
use nestjs_microservice_boil.Base.{codes, Text, Option, List, [], ◌∷◌, map}
use nestjs_microservice_boil.Exception.{Result}
use nestjs_microservice_boil.Exec.{Exec, ◌>>=◌, ◌>>◌, pure}
use nestjs_microservice_boil.Repository.{
  Repository, Criteria, by_id, by_name, by_email, by_user_id, unfiltered,
}
use nestjs_microservice_boil.Value.{Value, text, object, Fields, end, field}
use nestjs_microservice_boil.Store.Mongo
use nestjs_microservice_boil.Store.Document.{Host, Join}

-- a filter as the use cases write it
abbrev pub criteria_filter : Criteria → Fields
criteria_filter (by_id id) = field (codes "id") (text id) end
criteria_filter (by_name name) = field (codes "name") (text name) end
criteria_filter (by_email email) = field (codes "email") (text email) end
criteria_filter (by_user_id id) =
    field (codes "user") (object (field (codes "id") (text id) end)) end
criteria_filter unfiltered = end

-- A call on its own, with no effect but on the database.
abbrev pub asked : {D A : Type 0} → Exec D A → D → Result A
asked m d = (m (record { db = d; effects = [] })).0

abbrev pub told : {D A : Type 0} → Exec D A → D → Result A × D
told m d = let (r, w) = m (record { db = d; effects = [] }) in (r, w.db)

abbrev pub done : {D A : Type 0} → Exec D A → Exec D (Unit {0})
done m = do m; pure tt

-- `written` is the object that a write is given, and `now` the time of the calls.
module _ {D M O : Type 0} (host : Host D M O) (written : Option O → Fields)
    (joins : List (Text × Join)) (now : Value) where
  unfoldable pub repository : Repository D O
  unfolding Mongo.find_one Mongo.find_one_with_relation Mongo.find_by_id Mongo.find_in
      Mongo.exists_on_update Mongo.create Mongo.update_one Mongo.soft_remove Mongo.remove ◌>>=◌
  repository = record {
    find_one = λ c. asked (Mongo.find_one host (criteria_filter c));
    find_one_with_relation =
        λ c. asked (Mongo.find_one_with_relation host (criteria_filter c) joins);
    find_by_id = λ id. asked (Mongo.find_by_id host id);
    find_in = λ names. asked (Mongo.find_in host ((codes "name", map text names) ∷ []));
    exists_on_update = λ c id. asked (Mongo.exists_on_update host (criteria_filter c) id);
    create = λ o. told (Mongo.create host (written o));
    update_one = λ c o. told (done (Mongo.update_one host (criteria_filter c) (written o)));
    soft_remove = λ c. told (done (Mongo.soft_remove host now (criteria_filter c)));
    remove = λ c. told (done (Mongo.remove host (criteria_filter c)));
  }
