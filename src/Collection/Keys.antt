-- ===== src/Collection/Keys.antt =====
-- The groups of `groupBy` have distinct keys.
use nestjs_microservice_boil.Base.{
  Text, true, false, List, [], ◌∷◌, ◌===◌, ◌≡◌, refl, arith, ===_iff, ===_sound,
}
use nestjs_microservice_boil.Collection.{group_from, push}
use nestjs_microservice_boil.Collection.Laws.{group_at}

module _ {A : Type 0} where
  abbrev Fresh : Text → List (Text × List A) → Type 0
  Fresh k [] = Unit
  Fresh k ((i, _) ∷ groups) = ((i === k) ≡ false) × Fresh k groups

  abbrev pub DistinctKeys : List (Text × List A) → Type 0
  DistinctKeys [] = Unit
  DistinctKeys ((i, _) ∷ groups) = Fresh i groups × DistinctKeys groups

  pub group_at-Fresh :
      (k i : Text) (groups : List (Text × List A))
      → (i === k) ≡ true
      → Fresh i groups
      → group_at k groups ≡ []
  group_at-Fresh k i [] same f = refl
  group_at-Fresh k i ((j, items) ∷ groups) same f =
      ground (arith, ===_sound i k, same, group_at-Fresh k i groups)

  pub group_at-here :
      (k i : Text) (items : List A) (groups : List (Text × List A))
      → (i === k) ≡ true
      → group_at k ((i, items) ∷ groups) ≡ items
  group_at-here k i items groups e = rw e

  pub group_at-there :
      (k i : Text) (items : List A) (groups : List (Text × List A))
      → (i === k) ≡ false
      → group_at k ((i, items) ∷ groups) ≡ group_at k groups
  group_at-there k i items groups e = rw e

  push-Fresh :
      (k j : Text) (item : A) (groups : List (Text × List A))
      → (j === k) ≡ false
      → Fresh k groups
      → Fresh k (push j item groups)
  push-Fresh k j item [] h f = (h, tt)
  push-Fresh k j item ((i, items) ∷ groups) h f = ground (arith, push-Fresh k j item groups h f.1)

  push-DistinctKeys :
      (j : Text) (item : A) (groups : List (Text × List A))
      → DistinctKeys groups
      → DistinctKeys (push j item groups)
  push-DistinctKeys j item [] d = (tt, tt)
  push-DistinctKeys j item ((i, items) ∷ groups) d = ground (
    arith,
    ===_iff i j,
    ===_iff j i,
    push-Fresh i j item groups,
    push-DistinctKeys j item groups d.1,
  )

  group_from-DistinctKeys :
      (key : A → Text) (groups : List (Text × List A)) (arr : List A)
      → DistinctKeys groups
      → DistinctKeys (group_from key groups arr)
  group_from-DistinctKeys key groups [] d = d
  group_from-DistinctKeys key groups (x ∷ arr) d =
      group_from-DistinctKeys key (push (key x) x groups) arr (push-DistinctKeys (key x) x groups d)

  pub group_by-DistinctKeys : (arr : List A) (key : A → Text) → DistinctKeys (group_from key [] arr)
  group_by-DistinctKeys arr key = group_from-DistinctKeys key [] arr tt
