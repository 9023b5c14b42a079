-- ===== src/Store/Postgres/Port.antt =====
-- The Postgres repository as an implementation of the interface that the use cases call.
pub mod Laws
use nestjs_microservice_boil.Base.{codes, Text, Option, none, some, List, [], ◌∷◌, map}
use nestjs_microservice_boil.Exec.{Exec, ◌>>=◌, pure}
use nestjs_microservice_boil.Repository.{Repository}
use nestjs_microservice_boil.Value.{Value, text, Fields}
use nestjs_microservice_boil.Store.Document.{Join}
use nestjs_microservice_boil.Store.Mongo.Port.{criteria_filter, asked, told, done}
use nestjs_microservice_boil.Store.Postgres
use nestjs_microservice_boil.Store.Postgres.{TypeOrm}

-- `row` is a row as an object, `written` the object that a write is given.
module _ {D E : Type 0} (orm : TypeOrm D E) (row : E → Fields) (written : Option E → Fields)
    (joins : List (Text × Join)) where
  unfoldable pub repository : Repository D E
  unfolding Postgres.find_one Postgres.find_one_with_relation Postgres.find_by_id Postgres.find_in
      Postgres.exists_on_update Postgres.create Postgres.update_one Postgres.soft_remove
      Postgres.remove ◌>>=◌
  repository = record {
    find_one = λ c. asked (Postgres.find_one orm row (criteria_filter c));
    find_one_with_relation =
        λ c. asked (Postgres.find_one_with_relation orm row (criteria_filter c) joins);
    find_by_id = λ id. asked (Postgres.find_by_id orm row id);
    find_in = λ names. asked (Postgres.find_in orm row ((codes "name", map text names) ∷ []));
    exists_on_update = λ c id. asked (Postgres.exists_on_update orm row (criteria_filter c) id);
    create = λ o. told (Postgres.create orm row (written o));
    update_one = λ c o. told (done (Postgres.update_one orm row (criteria_filter c) (written o)));
    soft_remove = λ c. told (done (Postgres.soft_remove orm row (criteria_filter c)));
    remove = λ c. told (done (Postgres.remove orm row (criteria_filter c)));
  }
