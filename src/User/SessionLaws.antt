-- ===== src/User/SessionLaws.antt =====
-- What the use cases on sessions guarantee: login, and a refresh of the tokens that it gave.
use nestjs_microservice_boil.Base.{
  Bool-cases, ltb, ◌+◌, inl, false, leb, length, Text, truthy, trim, ℕ, true, some, [], ◌≡◌, inr,
  ◌===◌, ◌≢◌, arith, if◌then◌else◌,
}
use nestjs_microservice_boil.Exec.{◌>>=◌, World}
use nestjs_microservice_boil.Exception.{ok, err, api, bad_request, unauthorized, literal}
use nestjs_microservice_boil.Token.{Secrets, refresh_secret, sign, verify}
use nestjs_microservice_boil.User
use nestjs_microservice_boil.User.{UserEntity, Platform}
use nestjs_microservice_boil.User.Password.{UserPasswordEntity, verify_password}
use nestjs_microservice_boil.User.Password
use nestjs_microservice_boil.User.Sessions.{login, refresh, tokens_of, refresh_claims}
use nestjs_microservice_boil.Platform.{Claims, Expiration, numeric, textual}
use nestjs_microservice_boil.Repository.{Repository, by_email, by_id}
use nestjs_microservice_boil.Entity.{construct}

-- What holds of JSON web tokens at the time that they are signed, for the body `c`: its token
-- verifies under the secret that signed it, to that body, and is a text without white space around it.
pub record JwtLaws (p : Platform) (c : Claims) (secret : Text) (e : Expiration) : Type 0 where
  pub verify_sign : p.jwt_verify (p.jwt_sign c secret (some e)) secret ≡ inr c
  pub trim-sign : trim (p.jwt_sign c secret (some e)) ≡ p.jwt_sign c secret (some e)
  pub nonempty : leb 1 (length (p.jwt_sign c secret (some e))) ≡ true

-- The seconds that a token lives; `seconds` reads a text such as "1h".
abbrev pub lifetime : (seconds : Text → ℕ) → Expiration → ℕ
lifetime seconds (numeric n) = n
lifetime seconds (textual s) = seconds s

-- What holds of them later. `clock` is the runtime at each time, in seconds: a token of the body `c`
-- that was signed at the time `signed` verifies until its lifetime is over, and is refused as expired
-- from then on.
pub record TokenLaws (clock : ℕ → Platform) (seconds : Text → ℕ) (signed : ℕ) (c : Claims)
    (secret : Text) (e : Expiration) : Type 0 where
  pub verify_before :
      (at : ℕ)
      → ltb at (signed + lifetime seconds e) ≡ true
      → (clock at).jwt_verify ((clock signed).jwt_sign c secret (some e)) secret ≡ inr c
  pub verify_after :
      (at : ℕ)
      → ltb at (signed + lifetime seconds e) ≡ false
      → (clock at).jwt_verify ((clock signed).jwt_sign c secret (some e)) secret ≡ inl "jwt expired"
  pub trim-sign :
      trim ((clock signed).jwt_sign c secret (some e)) ≡ (clock signed).jwt_sign c secret (some e)
  pub nonempty : leb 1 (length ((clock signed).jwt_sign c secret (some e))) ≡ true

module _ {D : Type 0} (p : Platform) (secret : Secrets)
    (user_repository : Repository D UserEntity) where
  -- For a stored user with a stored password, login returns that user's tokens if the stored
  -- password is the hash of the given one, and refuses with a 400 if it is not.
  pub login_lem :
      (uuid : Text) (now : ℕ) (email password : Text) (user : UserEntity)
      (stored : UserPasswordEntity) (w : World D)
      → p.is_email email ≡ true
      → p.is_uuid uuid ≡ true
      → user_repository.find_one_with_relation (by_email email) w.db ≡ ok (some user)
      → user.password ≡ some stored
      → (login p secret user_repository uuid now (some email) (some password) w).0 ≡ (
          if p.hash password === stored.password
          then ok (tokens_of p secret user)
          else err (api bad_request (literal "incorrectPassword")))
  unfolding login ◌>>=◌ construct Password.parse User.parse_email verify_password
      Password.create_password
  login_lem uuid now email password user stored w email_ok uuid_ok found has = ground (arith)

module _ {D : Type 0} (clock : ℕ → Platform) (seconds : Text → ℕ) (secret : Secrets)
    (user_repository : Repository D UserEntity) where
  -- The refresh token of a login, used before `TOKEN_EXPIRATION` is over, gives new tokens, for the
  -- user that is stored then, if it is still stored and has a role. Used from then on, it is refused
  -- with a 401.
  pub refresh-login :
      (signed at : ℕ) (user later : UserEntity) (w : World D)
      → TokenLaws clock seconds signed
          (refresh_claims user)
          (refresh_secret (clock signed) secret)
          secret.token_expiration
      → truthy user.id ≡ true
      → user_repository.find_one (by_id user.id) w.db ≡ ok (some later)
      → later.roles ≢ []
      → refresh
          (clock at)
          secret
          user_repository
          (some (tokens_of (clock signed) secret user).refresh_token)
          w
        ≡ (
          if ltb at (signed + lifetime seconds secret.token_expiration)
              then ok (tokens_of (clock at) secret later)
              else err (api unauthorized (literal "jwt expired")),
          w,
        )
  unfolding refresh ◌>>=◌ verify sign refresh_secret
  refresh-login signed at user later w laws named found roles =
      elim (Bool-cases (ltb at (signed + lifetime seconds secret.token_expiration))) [
        | inl e ↦
            ground (
              arith,
              laws.verify_before at e,
              laws.trim-sign,
              laws.nonempty,
              e,
              named,
              found,
              roles,
            )
        | inr e ↦
            ground
              (arith, laws.verify_after at e, laws.trim-sign, laws.nonempty, e, named, found, roles)
      ]
