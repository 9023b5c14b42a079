-- ===== src/Store/Models.antt =====
-- infra/repository/types.ts: what the writes of a repository answer.
use nestjs_microservice_boil.Base.{ℕ, Text, Bool}

pub record UpdatedModel : Type 0 where
  pub matched_count : ℕ
  pub modified_count : ℕ
  pub acknowledged : Bool
  pub upserted_id : ℕ
  pub upserted_count : ℕ

pub record RemovedModel : Type 0 where
  pub deleted_count : ℕ
  pub deleted : Bool

pub record CreatedOrUpdateModel : Type 0 where
  pub id : Text
  pub created : Bool
  pub updated : Bool
