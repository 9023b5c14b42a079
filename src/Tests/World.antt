-- ===== src/Tests/World.antt =====
-- A host with one user, one role and one permission, whose texts have no capital letters to map.
use nestjs_microservice_boil.Base.{
  codes, Text, true, false, Option, none, some, List, [], ◌∷◌, ◌++◌, leb, length, includes, ◌===◌,
  if◌then◌else◌, inr, refl, ◌&&◌,
}
use nestjs_microservice_boil.Exception.{ok}
use nestjs_microservice_boil.Exec.{World}
use nestjs_microservice_boil.Platform.{Platform, Claims, CaseLaws, textual}
use nestjs_microservice_boil.Token.{Secrets}
use nestjs_microservice_boil.Entity.{Stamps, no_stamps}
use nestjs_microservice_boil.Repository.{Repository}
use nestjs_microservice_boil.Repository.Updates.{is_live, after_update}
use nestjs_microservice_boil.Permission.{PermissionEntity}
use nestjs_microservice_boil.Role.{RoleEntity}
use nestjs_microservice_boil.User.{UserEntity}
use nestjs_microservice_boil.User.Password.{UserPasswordEntity}

abbrev pub u1 : Text
u1 = codes "u1"

abbrev pub secret : Secrets
secret = record {
  jwt_secret_key = codes "access";
  jwt_refresh_secret_key = codes "refresh";
  token_expiration = textual (codes "300");
  host = codes "host";
}

-- Every token is Ann's.
abbrev pub claims_under : Text → Claims
claims_under key =
    if key === codes "refresh"
    then record { email = none; name = none; id = none; user_id = some u1 }
    else record { email = none; name = none; id = some u1; user_id = none }

abbrev pub platform : Platform
platform = record {
  is_uuid = λ s. leb 1 (length s);
  is_email = λ s. includes 0x40 s;
  lower = λ s. s;
  upper = λ s. s;
  hash = λ s. 0x23 ∷ s;
  jwt_sign = λ c key e. codes "token-of-" ++ key;
  jwt_verify = λ token key. inr (claims_under key);
}

pub case_laws : CaseLaws platform.lower
case_laws = record {
  convert-convert = λ s. refl;
  trim-convert = λ s. refl;
  underscores-convert = λ s. refl;
}

abbrev pub cat_list : PermissionEntity
cat_list = record { id = codes "p1"; name = codes "cat:list"; roles = none; stamps = no_stamps }

abbrev pub user_role : RoleEntity
user_role = record {
  id = codes "r1";
  name = codes "USER";
  permissions = cat_list ∷ [];
  stamps = no_stamps;
}

abbrev pub bare_role : RoleEntity
bare_role = record { id = codes "r1"; name = codes "USER"; permissions = []; stamps = no_stamps }

abbrev pub ann_password : UserPasswordEntity
ann_password = record { id = codes "w1"; password = codes "#secret"; stamps = no_stamps }

abbrev pub ann : UserEntity
ann = record {
  id = u1;
  name = codes "Ann";
  email = codes "a@b";
  roles = user_role ∷ [];
  password = some ann_password;
  stamps = no_stamps;
}

-- A repository that always finds `o` and `l`, and whose writes succeed.
abbrev pub fixed : {D E : Type 0} → Option E → List E → Repository D E
fixed o l = record {
  find_one = λ c d. ok o;
  find_one_with_relation = λ c d. ok o;
  find_by_id = λ id d. ok o;
  find_in = λ names d. ok l;
  exists_on_update = λ c id d. ok false;
  create = λ doc d. (ok (record { created = true; id = codes "x1" }), d);
  update_one = λ c doc d. (ok tt, d);
  soft_remove = λ c d. (ok tt, d);
  remove = λ c d. (ok tt, d);
}

-- A repository of one document, which hides it once it has a date of deletion.
abbrev visible : {E : Type 0} → (E → Text) → (E → Stamps) → Text → Option E → Option E
visible id stamps key none = none
visible id stamps key (some e) = if id e === key && is_live (stamps e) then some e else none

abbrev put : {E : Type 0} → (E → Stamps) → (Stamps → E → E) → (old doc : Option E) → Option E
put stamps with_stamps (some old) (some e) = some (after_update stamps with_stamps old e)
put stamps with_stamps _ doc = doc

abbrev pub single :
    {E : Type 0} → (E → Text) → (E → Stamps) → (Stamps → E → E) → Repository (Option E) E
single id stamps with_stamps = record {
  find_one = λ c d. ok d;
  find_one_with_relation = λ c d. ok d;
  find_by_id = λ key d. ok (visible id stamps key d);
  find_in = λ names d. ok [];
  exists_on_update = λ c key d. ok false;
  create = λ doc d. (ok (record { created = true; id = codes "x1" }), doc);
  update_one = λ c doc d. (ok tt, put stamps with_stamps d doc);
  soft_remove = λ c d. (ok tt, none);
  remove = λ c d. (ok tt, none);
}

abbrev pub start : {D : Type 0} → D → World D
start d = record { db = d; effects = [] }
