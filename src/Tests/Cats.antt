-- ===== src/Tests/Cats.antt =====
-- Runs of the use cases on cats.
use nestjs_microservice_boil.Base.{
  trim, codes, ℕ, Text, true, false, Option, none, some, List, [], ◌∷◌, ◌++◌, ◌≡◌, ◌≢◌, ◌⊎◌, refl,
  arith, ===_iff, ===_refl, if◌then◌else◌, Bool, ◌===◌, ◌&&◌, inr,
}
use nestjs_microservice_boil.Exec.{World, info, log_event}
use nestjs_microservice_boil.Exception.{ok}
use nestjs_microservice_boil.Entity.{Stamps, value, no_stamps, construct, to_object, undefined}
use nestjs_microservice_boil.Repository.{Repository, by_id}
use nestjs_microservice_boil.Number.{integer, pos}
use nestjs_microservice_boil.Cat.{CatEntity, CatObject}
use nestjs_microservice_boil.Cat
use nestjs_microservice_boil.Cat.Usecases
use nestjs_microservice_boil.Cat.Laws.{update-merged}
use nestjs_microservice_boil.Tests.World.{platform, fixed, start}

abbrev tom : CatEntity
tom = record {
  id = codes "c1";
  name = codes "Tom";
  breed = codes "grey";
  age = integer (pos 3);
  stamps = no_stamps;
}

abbrev cats : Repository (Unit {0}) CatEntity
cats = fixed (some tom) []

abbrev c1 : Text
c1 = codes "c1"

abbrev birthday : CatObject
birthday = record Cat.empty { id = some c1; age = some (integer (pos 4)) }

abbrev stamped : CatEntity
stamped = record tom {
  stamps = record { created_at = value 7; updated_at = value 7; deleted_at = undefined };
}

abbrev older : World (Unit {0})
older = (Usecases.update platform cats (codes "me") 7 birthday (start tt)).1

cat_runs :
    Usecases.update platform cats (codes "me") 7 birthday (start tt) ≡ (ok (some stamped), older)
unfolding Usecases.update nestjs_microservice_boil.Exec.validate_schema Cat.parse_id Cat.parse_age
    nestjs_microservice_boil.Exec.◌>>=◌ construct Cat.parse nestjs_microservice_boil.Base.trim
    nestjs_microservice_boil.Entity.merge nestjs_microservice_boil.Entity.construct_nullable
cat_runs = refl

construct_runs : construct (Cat.shape platform) 7 (Cat.object tom) ≡ ok stamped
unfolding construct Cat.parse nestjs_microservice_boil.Base.trim
construct_runs = refl

update-merged_example :
    (made : CatObject) × (Usecases.update_schema platform cats birthday ≡ ok (c1, made))
    × (parsed : CatEntity) × (Cat.parse platform (Cat.spread (Cat.object stamped) made) ≡ ok parsed)
    × (older.db ≡ (cats.update_one (by_id c1) (some parsed) tt).1)
    × (older.effects
        ≡ [] ++ info "cat updated." ∷ log_event "cat-updated" "updated" (codes "me") c1 ∷ [])
update-merged_example =
    update-merged platform cats (codes "me") 7 c1 birthday tom stamped (some stamped) (start tt)
      older refl refl construct_runs cat_runs
