-- ===== src/Base/Entries.antt =====
-- Objects as lists of entries, in the order in which their keys were first written.
use mathlib.Core.Path.{◌≡◌}
use mathlib.Core.Bool.{true}
use mathlib.Core.Logic.{inl, inr}
use mathlib.Core.Option.{Option, none, some}
use mathlib.Core.List.{List, [], ◌∷◌}
use nestjs_microservice_boil.Base.Tests.{if◌then◌else◌, Bool-cases}
use nestjs_microservice_boil.Base.Lists.{any, All}
use nestjs_microservice_boil.Base.Strings.{Text, ◌===◌}

-- The key of an entry is one of the list.
abbrev pub HasKeyIn {ℓ} : {V : Type ℓ} → List Text → Text × V → Type 0
HasKeyIn keys (key, _) = any (λ k. k === key) keys ≡ true

module _ {ℓ} {V : Type ℓ} where
  -- `object[key] = value`
  abbrev pub put : Text → V → List (Text × V) → List (Text × V)
  put key value [] = (key, value) ∷ []
  put key value ((k, v) ∷ entries) =
      let rest = put key value entries in if k === key then (k, value) ∷ entries else (k, v) ∷ rest

  -- `object[key]`
  abbrev pub lookup : Text → List (Text × V) → Option V
  lookup key [] = none
  lookup key ((k, v) ∷ entries) =
      let rest = lookup key entries in if k === key then some v else rest

  pub All-put :
      (keys : List Text) (key : Text) (v : V) (entries : List (Text × V))
      → any (λ k. k === key) keys ≡ true
      → All (HasKeyIn keys) entries
      → All (HasKeyIn keys) (put key v entries)
  All-put keys key v [] h k = (h, tt)
  All-put keys key v ((j, w) ∷ entries) h (i, k) = elim (Bool-cases (j === key)) [
    | inl e ↦ rw e (i, k)
    | inr e ↦ rw e (i, All-put keys key v entries h k)
  ]
