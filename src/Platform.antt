-- ===== src/Platform.antt =====
-- What the core takes from the runtime and from libraries under it: zod's checks of a format, the
-- case mappings of strings, sha256 and JSON web tokens.
pub mod Names
use nestjs_microservice_boil.Base.{ℕ, String, ◌⊎◌, trim, underscores, ◌≡◌, Text, Option, Bool}
use nestjs_microservice_boil.Exception.{Result}

-- The bodies that the program signs: that of an access token, of a refresh token, and of a
-- password reset.
pub record Claims : Type 0 where
  pub email : Option Text
  pub name : Option Text
  pub id : Option Text
  pub user_id : Option Text

-- `number | string`, the type of `TOKEN_EXPIRATION`
pub data Expiration : Type 0 where
  numeric : ℕ → Expiration
  textual : Text → Expiration

pub record Platform : Type 0 where
  pub is_uuid : Text → Bool
  pub is_email : Text → Bool
  pub lower : Text → Text
  pub upper : Text → Text
  pub hash : Text → Text
  pub jwt_sign : Claims → (secret : Text) → (expires_in : Option Expiration) → Text
  -- what `jwt.verify` hands to its callback: an error, by its message, or the body
  pub jwt_verify : (token secret : Text) → String ⊎ Claims

-- What the program relies on in `toLowerCase` and `toUpperCase`: mapping twice is mapping once, and
-- neither white space nor "_" is a letter, so that the mapping passes through `trim` and through
-- the replacement of spaces.
pub record CaseLaws (convert : Text → Text) : Type 0 where
  pub convert-convert : (s : Text) → convert (convert s) ≡ convert s
  pub trim-convert : (s : Text) → trim (convert s) ≡ convert (trim s)
  pub underscores-convert : (s : Text) → underscores (convert s) ≡ convert (underscores s)
