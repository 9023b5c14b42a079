-- ===== src/Identifier.antt =====
-- utils/id-generator.ts: `uuid` and `nanoid`. The library's identifiers and the random bytes that
-- are drawn in a call are parameters. The message on an unsupported version leaves the number out.
pub mod Laws
use nestjs_microservice_boil.Base.{
  codes, ℕ, zero, suc, Text, Bool, true, false, Option, none, some, List, [], ◌∷◌, ◌++◌, ◌%◌, ◌==◌,
  length, if◌then◌else◌,
}
use nestjs_microservice_boil.Exception.{Result, ok, err, api, unauthorized, literal, Exception}

-- `uuid.v1()`, `uuid.v3(uuid.v4(), namespace)`, `uuid.v4()`, `uuid.v5(uuid.v4(), namespace)`
pub record UuidLibrary : Type 0 where
  pub v1 : Text
  pub v3 : Text → Text
  pub v4 : Text
  pub v5 : Text → Text
  pub validate : Text → Bool

-- a version that needs a namespace
abbrev namespaced :
    (Text → Bool) → (Text → Text) → (required invalid : Exception) → Option Text → Result Text
namespaced validate generate required invalid none = err required
namespaced validate generate required invalid (some namespace) =
    if validate namespace then ok (generate namespace) else err invalid

unfoldable pub uuid :
    UuidLibrary → (prefix suffix : Text) (version : ℕ) (namespace : Option Text) → Result Text
uuid lib prefix suffix version namespace =
    if version == 4
    then ok (prefix ++ lib.v4 ++ suffix)
    else if version == 1
    then ok (prefix ++ lib.v1 ++ suffix)
    else if version == 3
    then namespaced lib.validate (λ n. prefix ++ lib.v3 n ++ suffix)
        (api unauthorized (literal "Namespace is required for UUID version 3"))
        (api unauthorized (literal "Invalid namespace UUID for UUID version 3")) namespace
    else if version == 5
    then namespaced lib.validate (λ n. prefix ++ lib.v5 n ++ suffix)
        (api unauthorized (literal "Namespace is required for UUID version 5"))
        (api unauthorized (literal "Invalid namespace UUID for UUID version 5")) namespace
    else err (api unauthorized (literal "unsupported UUID version"))

-- `alphabet[i]`; out of range it is `undefined`, which is appended as that word.
abbrev char_at : Text → ℕ → Text
char_at [] i = codes "undefined"
char_at (c ∷ s) zero = c ∷ []
char_at (c ∷ s) (suc i) = char_at s i

-- the loop of `nanoid`, over the bytes that were drawn
unfoldable pub nanoid_loop : (alphabet : Text) → (bytes : List ℕ) → Text
nanoid_loop alphabet [] = []
nanoid_loop alphabet (byte ∷ bytes) =
    char_at alphabet (byte % length alphabet) ++ nanoid_loop alphabet bytes

unfoldable pub nanoid : (prefix suffix alphabet : Text) (bytes : List ℕ) → Text
unfolding nanoid_loop
nanoid prefix suffix alphabet bytes = prefix ++ nanoid_loop alphabet bytes ++ suffix
