-- ===== src/Repository.antt =====
-- The repository interface that the use cases call (src/infra/repository/adapter.ts), over a
-- database `D` of the host. The databases and their drivers are libraries: each operation is a
-- field, so a use case's theorem holds for every database. A query leaves the database unchanged;
-- any operation may throw.
pub mod Updates
use nestjs_microservice_boil.Base.{Text, Bool, Option, List}
use nestjs_microservice_boil.Exception.{Result}

-- The filters that the use cases pass; `unfiltered` is one whose only field is `undefined`, which
-- the database layer leaves out.
pub data Criteria : Type 0 where
  by_id by_name by_email by_user_id : Text → Criteria
  unfiltered : Criteria

pub record CreatedModel : Type 0 where
  pub created : Bool
  pub id : Text

-- An object that is written is what `toObject` returned, `none` standing for `undefined`.
pub record Repository (D E : Type 0) : Type 0 where
  pub find_one : Criteria → D → Result (Option E)
  pub find_one_with_relation : Criteria → D → Result (Option E)
  pub find_by_id : Text → D → Result (Option E)
  pub find_in : List Text → D → Result (List E)
  pub exists_on_update : Criteria → Text → D → Result Bool
  pub create : Option E → D → Result CreatedModel × D
  pub update_one : Criteria → Option E → D → Result (Unit {0}) × D
  pub soft_remove : Criteria → D → Result (Unit {0}) × D
  pub remove : Criteria → D → Result (Unit {0}) × D
