-- ===== src/Store/Postgres/Port/Laws.antt =====
-- Over a table with a primary key, the Postgres repository has the laws that the use cases on birds
-- rely on.
use mathlib.Core.Option
use nestjs_microservice_boil.Repository.Updates.{after_update, visible, is_given}
use nestjs_microservice_boil.Base.{ℕ, Text, true, Option, some, [], ◌∷◌, ◌≡◌}
use nestjs_microservice_boil.Exception.{ok}
use nestjs_microservice_boil.Entity.{Stamps}
use nestjs_microservice_boil.Value.{text, Fields, end, assign}
use nestjs_microservice_boil.Store.Filter.{id_key}
use nestjs_microservice_boil.Store.Postgres
use nestjs_microservice_boil.Store.Postgres.{TypeOrm, is, only_where}

-- What TypeORM does, over a table with a primary key and with dates of creation, of the last update
-- and of deletion: a row has its key; a search by a key finds the row under it, unless that has a
-- date of deletion; and an update by a key, of every column but perhaps dates, leaves under it the
-- row that it is given with the old dates for those that it is not given. The date of the last
-- update is given.
pub record TableLaws {D E : Type 0} (orm : TypeOrm D E) (written : Option E → Fields)
    (id : E → Text) (stamps : E → Stamps) (with_stamps : Stamps → E → E)
    (row_of : D → Text → Option E) : Type 0 where
  pub row_of-id : (key : Text) (e : E) (d : D) → row_of d key ≡ some e → id e ≡ key
  pub find_one-row_of :
      (key : Text) (d : D)
      → orm.find_one (only_where ((id_key, is (text key)) ∷ [])) d
        ≡ ok (visible stamps (row_of d key))
  pub row_of-update :
      (key : Text) (e : E) (n : Option ℕ) (d d' : D)
      → id e ≡ key
      → is_given (stamps e).updated_at ≡ true
      → orm.update ((id_key, is (text key)) ∷ []) (assign end (written (some e))) d ≡ (ok n, d')
      → row_of d' key ≡ Option.map (λ old. after_update stamps with_stamps old e) (row_of d key)
