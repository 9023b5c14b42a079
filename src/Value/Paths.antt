-- ===== src/Value/Paths.antt =====
-- Reading an object after a change of one key.
use nestjs_microservice_boil.Base.{
  Text, ◌===◌, if◌then◌else◌, none, some, ◌≡◌, refl, arith, ===_iff,
}
use nestjs_microservice_boil.Value.{Value, Fields, end, field, get, delete, set}

pub get-delete :
    (j key : Text) (fs : Fields) → get j (delete key fs) ≡ (if key === j then none else get j fs)
unfolding get delete
get-delete j key end = ground arith
get-delete j key (field k v fs) =
    ground (arith, ===_iff key j, ===_iff k key, ===_iff k j, get-delete j key fs)

pub get-set :
    (j key : Text) (v : Value) (fs : Fields)
    → get j (set key v fs) ≡ (if key === j then some v else get j fs)
unfolding get set
get-set j key v end = refl
get-set j key v (field k w fs) =
    ground
      (arith, ===_iff key j, ===_iff k key, ===_iff k j, get-set j key v fs, get-delete j key fs)
