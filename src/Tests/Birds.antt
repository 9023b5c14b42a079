-- ===== src/Tests/Birds.antt =====
-- Runs of the use cases on birds.
use nestjs_microservice_boil.Base.{
  trim, codes, ℕ, Text, true, false, Option, none, some, List, [], ◌∷◌, ◌++◌, ◌≡◌, ◌≢◌, ◌⊎◌, refl,
  arith, ===_iff, ===_refl, if◌then◌else◌, Bool, ◌===◌, ◌&&◌, inr,
}
use nestjs_microservice_boil.Exec.{World, info, log_event}
use nestjs_microservice_boil.Exception.{ok, err, api, not_found, literal}
use nestjs_microservice_boil.Entity.{
  Stamps, value, no_stamps, construct, to_object, undefined, assign_stamps,
}
use nestjs_microservice_boil.Repository.{Repository, by_id}
use nestjs_microservice_boil.Repository.Updates.{UpdateLaws, is_given, shown, after_update}
use nestjs_microservice_boil.Bird.{BirdEntity, BirdObject}
use nestjs_microservice_boil.Bird
use nestjs_microservice_boil.Bird.Usecases
use nestjs_microservice_boil.Bird.Laws.{get_by_id-delete}
use nestjs_microservice_boil.Tests.World.{platform, single, start}

abbrev robin : BirdEntity
robin = record { id = codes "b1"; name = codes "Robin"; stamps = no_stamps }

abbrev stamps : BirdEntity → Stamps
stamps e = e.stamps

abbrev with_stamps : Stamps → BirdEntity → BirdEntity
with_stamps s e = record e { stamps = s }

abbrev birds : Repository (Option BirdEntity) BirdEntity
birds = single (λ (e : BirdEntity). e.id) stamps with_stamps

find_by_id-id :
    (key : Text) (e : BirdEntity) (d : Option BirdEntity)
    → birds.find_by_id key d ≡ ok (some e)
    → e.id ≡ key
find_by_id-id key e none h = absurd ground arith
find_by_id-id key e (some old) h = ground (arith, ===_iff old.id key)

find_by_id-update_one :
    (key : Text) (old e : BirdEntity) (d d' : Option BirdEntity)
    → birds.find_by_id key d ≡ ok (some old)
    → e.id ≡ key
    → is_given e.stamps.updated_at ≡ true
    → birds.update_one (by_id key) (some e) d ≡ (ok tt, d')
    → birds.find_by_id key d' ≡ ok (shown stamps (after_update stamps with_stamps old e))
find_by_id-update_one key old e none d' found same given h = absurd (ground (arith, found))
find_by_id-update_one key old e (some x) d' found same given h =
    ground (arith, same, found, h, ===_refl key)

laws : UpdateLaws (λ (e : BirdEntity). e.id) stamps with_stamps birds
laws = record { find_by_id-id = find_by_id-id; find_by_id-update_one = find_by_id-update_one }

abbrev b1 : Text
b1 = codes "b1"

abbrev deleted : World (Option BirdEntity)
deleted = (Usecases.delete platform birds 7 (some b1) (start (some robin))).1

abbrev gone : BirdEntity
gone = record robin {
  stamps = record { created_at = value 7; updated_at = value 7; deleted_at = value 7 };
}

delete_runs :
    Usecases.delete platform birds 7 (some b1) (start (some robin)) ≡ (ok (some gone), deleted)
unfolding Usecases.delete nestjs_microservice_boil.Exec.validate_schema Bird.parse_id
    nestjs_microservice_boil.Exec.◌>>=◌ ◌===◌ construct Bird.parse
    nestjs_microservice_boil.Base.trim to_object nestjs_microservice_boil.Entity.deactivate
delete_runs = refl

get_by_id-delete_example :
    Usecases.get_by_id platform birds 8 (some b1) deleted
    ≡ (err (api not_found (literal "ApiNotFoundException")), deleted)
get_by_id-delete_example =
    get_by_id-delete platform birds laws 7 8 b1 (some gone) (start (some robin)) deleted delete_runs

abbrev input : BirdObject
input = record Bird.empty { id = some b1; name = some (codes " Wren ") }

abbrev updated : World (Option BirdEntity)
updated = (Usecases.update platform birds 7 input (start (some robin))).1

abbrev wren : BirdEntity
wren = record {
  id = b1;
  name = codes "Wren";
  stamps = record { created_at = value 7; updated_at = value 7; deleted_at = undefined };
}
