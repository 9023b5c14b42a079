-- ===== src/Guard/Access.antt =====
-- Which requests the guard lets through.
use nestjs_microservice_boil.Base.{
  false, refl, inl, inr, arith, Text, ◌≡◌, ◌⊎◌, Bool, true, Option, none, some,
}
use nestjs_microservice_boil.Exec.{◌>>=◌, World}
use nestjs_microservice_boil.Platform.{Platform, Claims}
use nestjs_microservice_boil.Token.{Secrets}
use nestjs_microservice_boil.Exception.{Result, ok, err}
use nestjs_microservice_boil.Repository.{Criteria}
use nestjs_microservice_boil.User.{UserEntity}
use nestjs_microservice_boil.Guard.{
  Request, Route, present, by_id, can_activate, token_of, has, verify, permission_names,
  authenticate, authorize,
}
use nestjs_microservice_boil.Exec.Chain.{bind-eq-ok, ok-bind}

module _ (p : Platform) (secret : Secrets) (cache_get : Text → Result (Option Text))
    (find_user : Criteria → Result (Option UserEntity)) where
  -- The request carries a token that is not in the cache of those logged out, and verifies.
  pub record IsAuthenticated (r : Request) (claims : Claims) : Type 0 where
    pub header : Text
    pub sent : present r.authorization ≡ some header
    pub entry : Option Text
    pub looked_up : cache_get (token_of header) ≡ ok entry
    pub not_logged_out : present entry ≡ none
    pub valid : verify p secret (token_of header) none ≡ ok claims

  -- The user that the token names is stored and has the permission by one of its roles.
  pub record IsAuthorized (claims : Claims) (permission : Text) : Type 0 where
    pub id : Text
    pub named : present claims.id ≡ some id
    pub user : UserEntity
    pub found : find_user (by_id id) ≡ ok (some user)
    pub permitted : has (permission_names user.roles) permission ≡ true

  -- The specification of the guard.
  abbrev pub MayPass : Route → Request → Type 0
  MayPass route r =
      (route.is_public ≡ true)
      ⊎ ((claims : Claims) × IsAuthenticated r claims
          × ((present route.required_permission ≡ none)
              ⊎ ((permission : Text) × (present route.required_permission ≡ some permission)
                  × IsAuthorized claims permission)))

  authorize_found :
      (claims : Claims) (permission id : Text) (r : Result (Option UserEntity))
      (w after : World Request) (b : Bool)
      → present claims.id ≡ some id
      → find_user (by_id id) ≡ r
      → authorize p secret cache_get find_user claims (some permission) w ≡ (ok b, after)
      → (b ≡ true) × IsAuthorized claims permission
  unfolding authorize ◌>>=◌
  authorize_found claims permission id (ok (some user)) w after b named found h = (
    ground arith,
    record { id = id; named = named; user = user; found = found; permitted = ground arith },
  )
  authorize_found claims permission id (ok none) w after b named found h = absurd (ground arith)
  authorize_found claims permission id (err e) w after b named found h = absurd (ground arith)

  authorize_named :
      (claims : Claims) (permission : Text) (named : Option Text) (w after : World Request)
      (b : Bool)
      → present claims.id ≡ named
      → authorize p secret cache_get find_user claims (some permission) w ≡ (ok b, after)
      → (b ≡ true) × IsAuthorized claims permission
  unfolding authorize ◌>>=◌
  authorize_named claims permission none w after b named h = absurd (ground arith)
  authorize_named claims permission (some id) w after b named h =
      authorize_found claims permission id (find_user (by_id id)) w after b named refl h

  authorize-ok :
      (claims : Claims) (required : Option Text) (w after : World Request) (b : Bool)
      → authorize p secret cache_get find_user claims required w ≡ (ok b, after)
      → (b ≡ true)
        × ((required ≡ none)
            ⊎ ((permission : Text) × (required ≡ some permission) × IsAuthorized claims permission))
  unfolding authorize ◌>>=◌
  authorize-ok claims none w after b h = (ground arith, inl refl)
  authorize-ok claims (some permission) w after b h =
      let (passed, authorized) =
        authorize_named claims permission (present claims.id) w after b refl h in
      (passed, inr (permission, refl, authorized))

  authenticate_cached :
      (uuid header : Text) (cached : Result (Option Text)) (w after : World Request)
      (claims : Claims)
      → present w.db.authorization ≡ some header
      → cache_get (token_of header) ≡ cached
      → authenticate p secret cache_get find_user uuid w ≡ (ok claims, after)
      → IsAuthenticated w.db claims
  unfolding authenticate ◌>>=◌
  authenticate_cached uuid header (ok entry) w after claims sent looked_up h = record {
    header = header;
    sent = sent;
    entry = entry;
    looked_up = looked_up;
    not_logged_out = ground arith;
    valid = ground arith;
  }
  authenticate_cached uuid header (err e) w after claims sent looked_up h = absurd (ground arith)

  authenticate-ok :
      (uuid : Text) (sent : Option Text) (w after : World Request) (claims : Claims)
      → present w.db.authorization ≡ sent
      → authenticate p secret cache_get find_user uuid w ≡ (ok claims, after)
      → IsAuthenticated w.db claims
  unfolding authenticate ◌>>=◌
  authenticate-ok uuid none w after claims k h = absurd (ground arith)
  authenticate-ok uuid (some header) w after claims k h =
      authenticate_cached uuid header (cache_get (token_of header)) w after claims k refl h

  IsAuthenticated-authenticate :
      (uuid header : Text) (entry : Option Text) (w : World Request) (claims : Claims)
      → present w.db.authorization ≡ some header
      → cache_get (token_of header) ≡ ok entry
      → present entry ≡ none
      → verify p secret (token_of header) none ≡ ok claims
      → (authenticate p secret cache_get find_user uuid w).0 ≡ ok claims
  unfolding authenticate ◌>>=◌
  IsAuthenticated-authenticate uuid header entry w claims sent looked_up not_logged_out valid =
      ground arith

  IsAuthorized-authorize :
      (claims : Claims) (permission : Text) (w : World Request)
      → IsAuthorized claims permission
      → (authorize p secret cache_get find_user claims (some permission) w).0 ≡ ok true
  unfolding authorize ◌>>=◌
  IsAuthorized-authorize claims permission w a = ground (arith, a.named, a.found, a.permitted)

  Permitted-authorize :
      (claims : Claims) (required : Option Text) (w : World Request)
      → (required ≡ none)
        ⊎ ((permission : Text) × (required ≡ some permission) × IsAuthorized claims permission)
      → (authorize p secret cache_get find_user claims required w).0 ≡ ok true
  unfolding authorize ◌>>=◌
  Permitted-authorize claims required w (inl free) = rw free refl
  Permitted-authorize claims required w (inr (permission, needed, a)) =
      rw needed (IsAuthorized-authorize claims permission w a)

  activated :
      (route : Route) (public : Bool) (uuid : Text) (w after : World Request) (b : Bool)
      → route.is_public ≡ public
      → can_activate p secret cache_get find_user route uuid w ≡ (ok b, after)
      → (b ≡ true) × MayPass route w.db
  unfolding can_activate ◌>>=◌
  activated route true uuid w after b k h = (ground arith, inl k)
  activated route false uuid w after b k h =
      let (claims, v, first, second) =
        bind-eq-ok (authenticate p secret cache_get find_user uuid)
          (λ c. authorize p secret cache_get find_user c (present route.required_permission)) w
          after b ground (arith) in
      let (passed, authorized) =
        authorize-ok claims (present route.required_permission) v after b second in
      (
        passed,
        inr (
          claims,
          authenticate-ok uuid (present w.db.authorization) w v claims refl first,
          authorized,
        ),
      )

  -- A request that the guard lets through is one that may pass, and the guard never answers false.
  pub can_activate-MayPass :
      (route : Route) (uuid : Text) (w after : World Request) (b : Bool)
      → can_activate p secret cache_get find_user route uuid w ≡ (ok b, after)
      → (b ≡ true) × MayPass route w.db
  can_activate-MayPass route uuid w after b h =
      activated route route.is_public uuid w after b refl h

  admitted :
      (route : Route) (public : Bool) (uuid : Text) (w : World Request)
      → route.is_public ≡ public
      → MayPass route w.db
      → (can_activate p secret cache_get find_user route uuid w).0 ≡ ok true
  unfolding can_activate ◌>>=◌
  admitted route true uuid w k h = ground arith
  admitted route false uuid w k (inl public) = absurd (ground arith)
  admitted route false uuid w k (inr (claims, a, rest)) =
      let sent =
        IsAuthenticated-authenticate uuid a.header a.entry w claims a.sent a.looked_up
          a.not_logged_out a.valid in
      let chain =
        ok-bind (authenticate p secret cache_get find_user uuid)
          (λ c. authorize p secret cache_get find_user c (present route.required_permission)) w
          claims sent in
      let next =
        Permitted-authorize claims (present route.required_permission)
          (authenticate p secret cache_get find_user uuid w).1 rest in
      ground (arith, chain, next)

  -- Conversely, the guard lets through every request that may pass.
  pub MayPass-can_activate :
      (route : Route) (uuid : Text) (w : World Request)
      → MayPass route w.db
      → (can_activate p secret cache_get find_user route uuid w).0 ≡ ok true
  MayPass-can_activate route uuid w h = admitted route route.is_public uuid w refl h
