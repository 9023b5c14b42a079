-- ===== src/Guard/Logout.antt =====
-- `LogoutUsecase` and the guard, over the cache that they share.
use nestjs_microservice_boil.Base.{
  ◌⊎◌, inl, inr, ◌≤◌, ◌<◌, ◌+◌, truthy, Text, ◌≡◌, ℕ, true, false, Option, some, [], ◌∷◌, ◌++◌,
  codes, split, trim, arith, refl, includes,
}
use nestjs_microservice_boil.Exec.{◌>>=◌, World}
use nestjs_microservice_boil.Exception.{Result, ok, err, api, unauthorized, literal}
use nestjs_microservice_boil.Platform.{Platform, Expiration}
use nestjs_microservice_boil.Token.{Secrets}
use nestjs_microservice_boil.Repository.{Criteria}
use nestjs_microservice_boil.User.{UserEntity}
use nestjs_microservice_boil.User.Sessions.{logout}
use nestjs_microservice_boil.Guard.{Request, Route, can_activate, authenticate, token_of}

-- What the program relies on in the cache. `millis` is what it reads from the `PX` of a `set`, if
-- that is a number of milliseconds; a `set` with any other is refused. A key that was set is found
-- with its value as long as these milliseconds are not over.
pub record CacheLaws {D : Type 0} (millis : Expiration → Option ℕ)
    (get : (at : ℕ) → Text → D → Result (Option Text))
    (set : (now : ℕ) (key value : Text) → (px : Expiration) → D → Result (Unit {0}) × D)
    : Type 0 where
  pub set-px :
      (now : ℕ) (key value : Text) (px : Expiration) (d d' : D)
      → set now key value px d ≡ (ok tt, d')
      → (n : ℕ) × (millis px ≡ some n)
  pub get_set :
      (now at : ℕ) (key value : Text) (px : Expiration) (n : ℕ) (d d' : D)
      → set now key value px d ≡ (ok tt, d')
      → millis px ≡ some n
      → now ≤ at
      → at < now + n
      → get at key d' ≡ ok (some value)

lt-or-le : (a b : ℕ) → (a < b) ⊎ (b ≤ a)
lt-or-le a b = ground arith

split-no-separator : (c : ℕ) (s : Text) → includes c s ≡ false → split c s ≡ s ∷ []
unfolding split
split-no-separator c [] h = refl
split-no-separator c (x ∷ s) h = ground (arith, split-no-separator c s)

-- The token of a header "Bearer t" is `t`.
pub token_of-bearer : (t : Text) → includes 0x20 t ≡ false → token_of (codes "Bearer " ++ t) ≡ t
unfolding token_of split
token_of-bearer t h = rw (split-no-separator 0x20 t h) refl

module _ {D : Type 0} (p : Platform) (secret : Secrets) (millis : Expiration → Option ℕ)
    (get : (at : ℕ) → Text → D → Result (Option Text))
    (set : (now : ℕ) (key value : Text) → (px : Expiration) → D → Result (Unit {0}) × D)
    (find_user : Criteria → Result (Option UserEntity)) where
  logout-set :
      (now : ℕ) (actor token : Text) (w after : World D)
      → trim token ≡ token
      → logout secret (set now) actor (some token) w ≡ (ok tt, after)
      → (set now token token secret.token_expiration w.db ≡ (ok tt, after.db))
        × (truthy token ≡ true)
  unfolding ◌>>=◌ logout
  logout-set now actor token w after trimmed h = (ground (arith, trimmed), ground (arith, trimmed))

  refused :
      (actor token uuid : Text) (d : D) (at : ℕ) (route : Route) (request : World Request)
      → includes 0x20 token ≡ false
      → truthy token ≡ true
      → get at token d ≡ ok (some token)
      → route.is_public ≡ false
      → request.db.authorization ≡ some (codes "Bearer " ++ token)
      → (can_activate p secret (λ key. get at key d) find_user route uuid request).0
        ≡ err (api unauthorized (literal "you have been logged out"))
  unfolding can_activate authenticate ◌>>=◌
  refused actor token uuid d at route request spaceless nonempty stored private sent =
      let bearer = token_of-bearer token spaceless in ground (arith, stored, bearer, nonempty)

  -- A logout that returns was given a `TOKEN_EXPIRATION` that the cache reads as a number of
  -- milliseconds; and until they are over, the guard refuses the token that was logged out, on every
  -- route that is not public, over the cache as the logout left it.
  pub can_activate-logout :
      (actor token uuid : Text) (now at : ℕ) (w after : World D) (route : Route)
      (request : World Request)
      → CacheLaws millis get set
      → includes 0x20 token ≡ false
      → trim token ≡ token
      → logout secret (set now) actor (some token) w ≡ (ok tt, after)
      → now ≤ at
      → route.is_public ≡ false
      → request.db.authorization ≡ some (codes "Bearer " ++ token)
      → (n : ℕ) × (millis secret.token_expiration ≡ some n)
        × (((can_activate p secret (λ key. get at key after.db) find_user route uuid request).0
              ≡ err (api unauthorized (literal "you have been logged out")))
            ⊎ (now + n ≤ at))
  can_activate-logout actor token uuid now at w after route request laws spaceless trimmed h later
        private sent =
      let (written, nonempty) = logout-set now actor token w after trimmed h in
      let (n, read) = laws.set-px now token token secret.token_expiration w.db after.db written in
      elim (lt-or-le at (now + n)) [
        | inl before ↦
            let stored =
              laws.get_set now at token token secret.token_expiration n w.db after.db written read
                later before in
            (
              n,
              read,
              inl (
                  refused actor token uuid after.db at route request spaceless nonempty stored
                    private sent),
            )
        | inr over ↦ (n, read, inr over)
      ]
