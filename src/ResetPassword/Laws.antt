-- ===== src/ResetPassword/Laws.antt =====
-- What the two use cases guarantee.
use nestjs_microservice_boil.Base.{
  leb, length, Text, ===_refl, ℕ, true, Option, none, some, ◌&&◌, ◌++◌, ◌∷◌, [], arith, ◌≡◌, ◌⊎◌,
  ◌≢◌, inl, inr, refl,
}
use nestjs_microservice_boil.Exception.{Result, ok, err}
use nestjs_microservice_boil.Entity.{construct, to_object}
use nestjs_microservice_boil.Exec.{◌>>=◌, World}
use nestjs_microservice_boil.Token.{Secrets, sign, verify}
use nestjs_microservice_boil.User
use nestjs_microservice_boil.User.{UserEntity}
use nestjs_microservice_boil.User.SessionLaws.{JwtLaws}
use nestjs_microservice_boil.Platform.{Platform, Claims}
use nestjs_microservice_boil.Repository.{Repository, by_email, by_user_id}
use nestjs_microservice_boil.ResetPassword.{ResetPasswordEntity}
use nestjs_microservice_boil.ResetPassword.Usecases.{
  confirm, send_email, reset_email, changed_email, by_optional_id,
}

-- The body of a reset token.
abbrev pub reset_claims : Text → Claims
reset_claims id = record { email = none; name = none; id = some id; user_id = none }

module _ {D : Type 0} (p : Platform) (secret : Secrets)
    (reset_password_repository : Repository D ResetPasswordEntity)
    (find_by_id_user_id : Text → D → Result (Option ResetPasswordEntity))
    (user_repository : Repository D UserEntity) where
  -- Confirming a reset does not depend on the new password: for two new passwords of the accepted
  -- length, each given twice alike, the result, the database and the effects are the same.
  pub confirm_ignores_password :
      (now : ℕ) (token : Option Text) (new other : Text) (w : World D)
      → (leb 5 (length new) && leb (length new) 200) ≡ true
      → (leb 5 (length other) && leb (length other) 200) ≡ true
      → confirm p secret reset_password_repository find_by_id_user_id user_repository now token
          (some new)
          (some new)
          w
        ≡ confirm p secret reset_password_repository find_by_id_user_id user_repository now token
            (some other)
            (some other)
            w
  unfolding confirm ◌>>=◌
  confirm_ignores_password now token new other w h k = ground (arith, ===_refl new, ===_refl other)

  sent :
      (uuid email : Text) (now : ℕ) (user : UserEntity) (s : Result (Option ResetPasswordEntity))
      (w after : World D)
      → JwtLaws p (reset_claims user.id) secret.jwt_secret_key secret.token_expiration
      → user_repository.find_one (by_email email) w.db ≡ ok (some user)
      → find_by_id_user_id user.id w.db ≡ s
      → send_email p secret reset_password_repository find_by_id_user_id user_repository uuid now
          (some email)
          w
        ≡ (ok tt, after)
      → (token : Text) × (after.effects ≡ w.effects ++ reset_email secret user token ∷ [])
        × (((r : ResetPasswordEntity) × (find_by_id_user_id user.id w.db ≡ ok (some r))
              × (token ≡ r.token)
              × (after.db ≡ w.db))
            ⊎ ((find_by_id_user_id user.id w.db ≡ ok none)
                × (verify p secret token none ≡ ok (reset_claims user.id))))
  unfolding send_email ◌>>=◌ verify sign User.parse_email
  sent uuid email now user (ok (some r)) w after laws found stored h =
      (r.token, ground arith, inl (r, stored, refl, ground arith))
  sent uuid email now user (ok none) w after laws found stored h =
      let law = laws.verify_sign in
      (
        sign p secret (reset_claims user.id) none none,
        ground arith,
        inr (stored, ground (arith, law)),
      )
  sent uuid email now user (err e) w after laws found stored h = absurd (ground arith)

  -- Asking for a reset sends one mail: with the token of the user's reset that is stored, when
  -- nothing is written, or with a new token, which verifies to the user's id.
  pub send_email-ok :
      (uuid email : Text) (now : ℕ) (user : UserEntity) (w after : World D)
      → JwtLaws p (reset_claims user.id) secret.jwt_secret_key secret.token_expiration
      → user_repository.find_one (by_email email) w.db ≡ ok (some user)
      → send_email p secret reset_password_repository find_by_id_user_id user_repository uuid now
          (some email)
          w
        ≡ (ok tt, after)
      → (token : Text) × (after.effects ≡ w.effects ++ reset_email secret user token ∷ [])
        × (((r : ResetPasswordEntity) × (find_by_id_user_id user.id w.db ≡ ok (some r))
              × (token ≡ r.token)
              × (after.db ≡ w.db))
            ⊎ ((find_by_id_user_id user.id w.db ≡ ok none)
                × (verify p secret token none ≡ ok (reset_claims user.id))))
  send_email-ok uuid email now user w after laws found h =
      sent uuid email now user (find_by_id_user_id user.id w.db) w after laws found refl h

  -- What a confirmed reset had and did, where its token verifies to `claims`, its user is `found` and
  -- the entity made of it `entity`.
  abbrev pub Confirmed :
      Text → Text → Text → World D → World D → Claims → UserEntity → UserEntity → ℕ → Type 0
  Confirmed token new confirmation w after claims found entity now =
      (verify p secret token none ≡ ok claims)
      × (user_repository.find_one_with_relation (by_optional_id claims.id) w.db ≡ ok (some found))
      × (construct (User.shape p) now (User.object found) ≡ ok entity)
      × (new ≡ confirmation)
      × (find_by_id_user_id entity.id w.db ≢ ok none)
      × (after.effects ≡ w.effects ++ changed_email entity ∷ [])
      × (let written = (user_repository.create (to_object (User.shape p) entity) w.db).1 in
          after.db ≡ (reset_password_repository.remove (by_user_id entity.id) written).1)
