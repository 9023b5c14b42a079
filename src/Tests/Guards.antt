-- ===== src/Tests/Guards.antt =====
-- Requests through the guard, and sessions.
use nestjs_microservice_boil.Base.{
  ltb, ◌+◌, ◌≤◌, ◌<◌, ◌⊎◌, inl, inr, codes, ℕ, Text, true, false, Option, none, some, List, [], ◌∷◌,
  ◌≡◌, ◌===◌, if◌then◌else◌, refl, ===_refl, arith, trim, ◌≢◌,
}
use nestjs_microservice_boil.Exec.{World, ◌>>=◌}
use nestjs_microservice_boil.Exception.{
  Result, ok, err, api, unauthorized, literal, bad_request, foreign,
}
use nestjs_microservice_boil.Repository.{Criteria}
use nestjs_microservice_boil.User.{UserEntity}
use nestjs_microservice_boil.User.Sessions.{login, refresh, logout, tokens_of, refresh_claims}
use nestjs_microservice_boil.User.SessionLaws.{TokenLaws, lifetime, login_lem, refresh-login}
use nestjs_microservice_boil.Platform.{Platform, Expiration, numeric, textual}
use nestjs_microservice_boil.Token.{refresh_secret}
use nestjs_microservice_boil.Guard.{Request, Route, can_activate}
use nestjs_microservice_boil.Guard.Access.{MayPass, can_activate-MayPass, MayPass-can_activate}
use nestjs_microservice_boil.Guard.Logout.{CacheLaws, can_activate-logout}
use nestjs_microservice_boil.Tests.World.{
  claims_under, u1, secret, platform, ann, ann_password, fixed, start,
}

abbrev route : Route
route = record { is_public = false; required_permission = some (codes "cat:list") }

abbrev request : Request
request = record {
  authorization = some (codes "Bearer token-of-access");
  traceid = none;
  id = codes "t1";
  traced = true;
  user = none;
}

abbrev empty_cache : Text → Result (Option Text)
empty_cache key = ok none

abbrev find_ann : Criteria → Result (Option UserEntity)
find_ann c = ok (some ann)

passed : can_activate platform secret empty_cache find_ann route (codes "uuid") (start request) ≡ (
  ok true,
  (can_activate platform secret empty_cache find_ann route (codes "uuid") (start request)).1,
)
unfolding can_activate ◌>>=◌ ◌===◌
passed = refl

can_activate-MayPass_example :
    (true ≡ true) × MayPass platform secret empty_cache find_ann route request
can_activate-MayPass_example =
    can_activate-MayPass platform secret empty_cache find_ann route (codes "uuid") (start request)
      (can_activate platform secret empty_cache find_ann route (codes "uuid") (start request)).1
      true passed

MayPass-can_activate_example :
    (can_activate platform secret empty_cache find_ann route (codes "uuid") (start request)).0
    ≡ ok true
MayPass-can_activate_example =
    MayPass-can_activate platform secret empty_cache find_ann route (codes "uuid") (start request)
      (can_activate-MayPass platform secret empty_cache find_ann route (codes "uuid")
        (start request)
        (can_activate platform secret empty_cache find_ann route (codes "uuid") (start request)).1
        true passed).1

trimmed : trim (codes "token-of-access") ≡ codes "token-of-access"
unfolding trim
trimmed = refl

-- A cache that keeps each value with the end of its time.
abbrev Cache : Type 0
Cache = List (Text × Text × ℕ)

abbrev value_at : ℕ → Text → Cache → Option Text
value_at at key [] = none
value_at at key ((k, value, end) ∷ d) =
    let rest = value_at at key d in
    if k === key then (if ltb at end then some value else none) else rest

abbrev get : ℕ → Text → Cache → Result (Option Text)
get at key d = ok (value_at at key d)

-- "300" is the only text that is read as a number here.
abbrev millis : Expiration → Option ℕ
millis (numeric n) = some n
millis (textual s) = if s === codes "300" then some 300 else none

abbrev kept : Option ℕ → (now : ℕ) (key value : Text) → Cache → Result (Unit {0}) × Cache
kept (some n) now key value d = (ok tt, (key, value, now + n) ∷ d)
kept none now key value d = (err (foreign "ERR value is not an integer or out of range"), d)

abbrev set : (now : ℕ) (key value : Text) → Expiration → Cache → Result (Unit {0}) × Cache
set now key value px d = kept (millis px) now key value d

abbrev token : Text
token = codes "token-of-access"

abbrev logged_out : World Cache
logged_out = (logout secret (set 50) u1 (some token) (start [])).1

logged : logout secret (set 50) u1 (some token) (start []) ≡ (ok tt, logged_out)
unfolding logout ◌>>=◌ trim ◌===◌
logged = refl

kept-ok :
    (o : Option ℕ) (now : ℕ) (key value : Text) (d d' : Cache)
    → kept o now key value d ≡ (ok tt, d')
    → (n : ℕ) × (o ≡ some n)
kept-ok none now key value d d' h = absurd (ground (arith, h))
kept-ok (some n) now key value d d' h = (n, refl)

get-kept :
    (o : Option ℕ) (now at : ℕ) (key value : Text) (n : ℕ) (d d' : Cache)
    → kept o now key value d ≡ (ok tt, d')
    → o ≡ some n
    → at < now + n
    → get at key d' ≡ ok (some value)
get-kept none now at key value n d d' h k before = absurd (ground (arith, k))
get-kept (some m) now at key value n d d' h k before = ground (arith, h, k, before, ===_refl key)

cache_laws : CacheLaws millis get set
cache_laws = record {
  set-px = λ now key value px d d' h. kept-ok (millis px) now key value d d' h;
  get_set = λ now at key value px n d d' h k later before.
      get-kept (millis px) now at key value n d d' h k before;
}

can_activate-logout_example :
    (n : ℕ) × (millis secret.token_expiration ≡ some n)
    × (((can_activate platform secret
            (λ key. get 60 key logged_out.db)
            find_ann
            route
            (codes "uuid")
            (start request)).0
          ≡ err (api unauthorized (literal "you have been logged out")))
        ⊎ (50 + n ≤ 60))
can_activate-logout_example =
    can_activate-logout platform secret millis get set find_ann u1 token (codes "uuid") 50 60
      (start []) logged_out route (start request) cache_laws refl trimmed logged (omega arith) refl
      refl

login_lem_example :
    (login platform secret
      (fixed (some ann) [])
      (codes "uuid")
      7
      (some (codes "a@b"))
      (some (codes "secret"))
      (start tt)).0
    ≡ (if platform.hash (codes "secret") === codes "#secret"
        then ok (tokens_of platform secret ann)
        else err (api bad_request (literal "incorrectPassword")))
login_lem_example =
    login_lem platform secret (fixed (some ann) []) (codes "uuid") 7 (codes "a@b") (codes "secret")
      ann ann_password (start tt) refl refl refl refl

-- The runtime at each time: tokens are from the time 0, and live for 300 seconds.
abbrev clock : ℕ → Platform
clock at = record platform {
  jwt_verify = λ token key. if ltb at 300 then inr (claims_under key) else inl "jwt expired";
}

abbrev seconds : Text → ℕ
seconds s = 300

token_laws :
    TokenLaws clock seconds 0
      (refresh_claims ann)
      (refresh_secret (clock 0) secret)
      secret.token_expiration
unfolding refresh_secret ◌===◌ trim
token_laws = record {
  verify_before = λ at h. ground (arith, h);
  verify_after = λ at h. ground (arith, h);
  trim-sign = refl;
  nonempty = refl;
}

roles_there : ann.roles ≢ []
roles_there = λ e. ground (arith, e)

refresh-login_example :
    refresh
      (clock 299)
      secret
      (fixed (some ann) [])
      (some (tokens_of (clock 0) secret ann).refresh_token)
      (start tt)
    ≡ (
      if ltb 299 (0 + lifetime seconds secret.token_expiration)
          then ok (tokens_of (clock 299) secret ann)
          else err (api unauthorized (literal "jwt expired")),
      start tt,
    )
refresh-login_example =
    refresh-login clock seconds secret (fixed (some ann) []) 0 299 ann ann (start tt) token_laws
      refl refl roles_there
