-- ===== src/Guard.antt =====
-- middlewares/guards/authorization.guard.ts: `AuthorizationRoleGuard`, over the request that it
-- changes. What the reflector, the cache, the token service and the repository answer during the
-- call are parameters.
pub mod Access
pub mod Logout
use nestjs_microservice_boil.Base.{
  any, Text, ◌===◌, truthy, split, ℕ, String, Bool, true, false, Option, none, some, List, [], ◌∷◌,
  ◌++◌, map, if◌then◌else◌,
}
use nestjs_microservice_boil.Exec.{
  ◌>>=◌, ◌>>◌, Exec, pure, finish_tracing, throw, command, lift, query,
}
use nestjs_microservice_boil.Token.{Secrets, verify}
use nestjs_microservice_boil.User.{UserEntity}
use nestjs_microservice_boil.Role.{RoleEntity}
use nestjs_microservice_boil.Permission.{PermissionEntity}
use nestjs_microservice_boil.Entity.{or_else}
use nestjs_microservice_boil.Exception.{
  ExceptionClass, Result, ok, status, api, err, unauthorized, literal, forbidden,
}
use nestjs_microservice_boil.Platform.{Claims, Platform}
use nestjs_microservice_boil.Repository.{Criteria, by_id}

-- The part of the request that the guard reads or writes; `traced` is `request.tracing` being set.
pub record Request : Type 0 where
  pub authorization : Option Text
  pub traceid : Option Text
  pub id : Text
  pub traced : Bool
  pub user : Option Claims

-- What the reflector finds on the handler or on the class.
pub record Route : Type 0 where
  pub is_public : Bool
  pub required_permission : Option Text

-- `x || fallback` and `!x` on a string that may be missing
abbrev pub present : Option Text → Option Text
present none = none
present (some s) = elim (truthy s) [ true ↦ some s | false ↦ none ]

abbrev or_text : Text → Text → Text
or_text s fallback = if truthy s then s else fallback

-- `tokenHeader.split(' ')[1] || ''`
abbrev second_or_empty : List Text → Text
second_or_empty (_ ∷ t ∷ _) = t
second_or_empty _ = []

unfoldable pub token_of : Text → Text
token_of header = second_or_empty (split 0x20 header)

-- The names that the loop over `user.roles` pushes.
unfoldable pub permission_names : List RoleEntity → List Text
permission_names [] = []
permission_names (r ∷ rs) = map (λ q. q.name) r.permissions ++ permission_names rs

-- `new Set(permissions).has(name)`
unfoldable pub has : List Text → Text → Bool
has names name = any (λ n. n === name) names

-- `if (!request.headers?.traceid) …; request.id = request.headers.traceid`
unfoldable pub with_traceid : (uuid : Text) → Request → Request
with_traceid uuid r =
    let traceid = or_else (or_text r.id uuid) (present r.traceid) in
    record r { traceid = some traceid; id = traceid }

-- `finishTracing`
unfoldable pub finish : ℕ → String → Exec Request (Unit {0})
finish status message w = (
  ok tt,
  if w.db.traced then record w { effects = w.effects ++ finish_tracing status message ∷ [] } else w,
)

unfoldable pub refuse : {A : Type 0} → ExceptionClass → String → Exec Request A
unfolding finish
refuse c message = finish (status c) message >> throw (api c (literal message))

abbrev or_refuse : {A : Type 0} → Option A → ExceptionClass → String → Exec Request A
or_refuse none c message = refuse c message
or_refuse (some a) c message = pure a

module _ (p : Platform) (secret : Secrets) (cache_get : Text → Result (Option Text))
    (find_user : Criteria → Result (Option UserEntity)) where
  -- `this.tokenService.verify({ token }).catch(…)`
  unfoldable pub verified : Text → Exec Request Claims
  unfolding verify finish
  verified token = elim (verify p secret token none) [
    | ok claims ↦ pure claims
    | err error ↦ finish 401 "invalidToken" >> throw error
  ]

  -- What follows once the token is verified.
  unfoldable pub authorize : Claims → Option Text → Exec Request Bool
  unfolding refuse permission_names has
  authorize claims none = pure true
  authorize claims (some permission) = do
    user_id ← or_refuse (present claims.id) unauthorized "invalidToken"
    found ← lift (find_user (by_id user_id))
    user ← or_refuse found unauthorized "userNotFound"
    if has (permission_names user.roles) permission then pure true else (do
      finish 403 "ApiForbiddenException"
      throw (api forbidden (literal "You Shall Not Pass")))

  unfoldable pub authenticate : (uuid : Text) → Exec Request Claims
  unfolding refuse verified with_traceid token_of
  authenticate uuid = do
    command (λ r. (ok tt, with_traceid uuid r))
    request ← query (λ r. ok r)
    token_header ← or_refuse (present request.authorization) unauthorized "no token provided"
    black_list_token ← lift (cache_get (token_of token_header))
    elim (present black_list_token) [
      | some _ ↦ refuse unauthorized "you have been logged out"
      | none ↦ do
        claims ← verified (token_of token_header)
        command (λ r. (ok tt, record r { user = some claims }))
        pure claims
    ]

  -- `canActivate`
  unfoldable pub can_activate : Route → (uuid : Text) → Exec Request Bool
  unfolding authenticate authorize
  can_activate route uuid =
      if route.is_public
      then pure true
      else (do claims ← authenticate uuid; authorize claims (present route.required_permission))
