-- ===== src/User/Written.antt =====
-- What `UserCreateUsecase` writes: the user as it is.
use nestjs_microservice_boil.Base.{All, true, ap, refl, Text, ℕ, ◌≡◌, some, List, [], ◌∷◌, arith}
use nestjs_microservice_boil.User.{
  UserEntity, object, shape, Platform, RoleEntity, ok, Result, empty,
}
use nestjs_microservice_boil.User
use nestjs_microservice_boil.Entity.{construct, to_object}
use nestjs_microservice_boil.Role
use nestjs_microservice_boil.User.Password
use nestjs_microservice_boil.User.Password.{UserPasswordEntity, verify_password}
use nestjs_microservice_boil.Entity.Construct.{construct-parse}

module _ (p : Platform) where
  parse-fields :
      (uuid name email : Text) (roles : List RoleEntity) (e : UserEntity)
      → User.parse p (record empty {
        id = some uuid;
        name = some name;
        email = some email;
        roles = some roles;
      })
        ≡ ok e
      → (e.id ≡ uuid) × (e.name ≡ name) × (e.email ≡ email)
  unfolding User.parse
  parse-fields uuid name email roles e h = ground arith

  pub construct-fields :
      (now : ℕ) (uuid name email : Text) (roles : List RoleEntity) (e : UserEntity)
      → construct (shape p) now (record empty {
        id = some uuid;
        name = some name;
        email = some email;
        roles = some roles;
      })
        ≡ ok e
      → (e.id ≡ uuid) × (e.name ≡ name) × (e.email ≡ email)
  construct-fields now uuid name email roles e h =
      let (parsed, k, same) = construct-parse (shape p) now _ e h in
      rw (← same) (parse-fields uuid name email roles parsed k)

  -- The schema of roles accepts this one, and gives it back.
  abbrev pub IsKept : RoleEntity → Type 0
  IsKept r = Role.parse p (Role.object r) ≡ ok r

  IsKept-parse_roles : (rs : List RoleEntity) → All IsKept rs → User.parse_roles p rs ≡ ok rs
  unfolding User.parse_roles
  IsKept-parse_roles [] h = refl
  IsKept-parse_roles (r ∷ rs) (k, h) = rw (k, IsKept-parse_roles rs h) refl

  parse-whole :
      (uuid name email : Text) (roles : List RoleEntity) (e : UserEntity)
      → All IsKept roles
      → User.parse p (record empty {
        id = some uuid;
        name = some name;
        email = some email;
        roles = some roles;
      })
        ≡ ok e
      → (e.roles ≡ roles) × (p.is_uuid e.id ≡ true) × (p.is_email e.email ≡ true)
  unfolding User.parse User.parse_id User.parse_email
  parse-whole uuid name email roles e kept h =
      let same = IsKept-parse_roles roles kept in ground (arith, same)

  pub construct-whole :
      (now : ℕ) (uuid name email : Text) (roles : List RoleEntity) (e : UserEntity)
      → All IsKept roles
      → construct (shape p) now (record empty {
        id = some uuid;
        name = some name;
        email = some email;
        roles = some roles;
      })
        ≡ ok e
      → (e.roles ≡ roles) × (p.is_uuid e.id ≡ true) × (p.is_email e.email ≡ true)
  construct-whole now uuid name email roles e kept h =
      let (parsed, k, same) = construct-parse (shape p) now _ e h in
      rw (← same) (parse-whole uuid name email roles parsed kept k)

  -- Such a user, with a password whose id is a UUID, is its own plain object.
  pub to_object-whole :
      (e : UserEntity) (w : UserPasswordEntity)
      → All IsKept e.roles
      → p.is_uuid e.id ≡ true
      → p.is_email e.email ≡ true
      → p.is_uuid w.id ≡ true
      → to_object (shape p) (record e { password = some w }) ≡ some (record e { password = some w })
  unfolding to_object User.parse User.parse_id User.parse_email User.parse_password Password.parse
  to_object-whole e w kept i m j =
      let same = IsKept-parse_roles e.roles kept in ground (arith, same, i, m, j)

  parse-secret :
      (id text : Text) (e : UserPasswordEntity)
      → Password.parse p (record Password.empty { id = some id; password = some text }) ≡ ok e
      → (p.is_uuid e.id ≡ true) × (e.id ≡ id) × (e.password ≡ text)
  unfolding Password.parse
  parse-secret id text e h = ground arith

  pub construct-secret :
      (now : ℕ) (id text : Text) (e : UserPasswordEntity)
      → construct
          (Password.shape p)
          now
          (record Password.empty { id = some id; password = some text })
        ≡ ok e
      → (p.is_uuid e.id ≡ true) × (e.id ≡ id) × (e.password ≡ text)
  construct-secret now id text e h =
      let (parsed, k, same) = construct-parse (Password.shape p) now _ e h in
      rw (← same) (parse-secret id text parsed k)

  pub hashed :
      (id text : Text) (e : UserPasswordEntity)
      → (e.id ≡ id) × (e.password ≡ text)
      → (Password.create_password p e).id ≡ id
        × ((Password.create_password p e).password ≡ p.hash text)
  unfolding Password.create_password
  hashed id text e (a, b) = (a, ap p.hash b)
