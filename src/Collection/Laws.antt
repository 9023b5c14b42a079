-- ===== src/Collection/Laws.antt =====
-- What the array helpers return.
use nestjs_microservice_boil.Base.{
  Text, Bool, true, false, List, [], ◌∷◌, ◌++◌, ◌===◌, ◌≡◌, refl, arith, if◌then◌else◌, filter, ap,
  sym, ◌∙◌, ===_sound, ===_refl,
}
use mathlib.Core.List.{append_assoc, append-nil}
use nestjs_microservice_boil.Collection.{group_from, push}

module _ {A : Type 0} where
  -- `groups[k]`, the empty list where there is none.
  abbrev pub group_at : Text → List (Text × List A) → List A
  group_at k [] = []
  group_at k ((k', items) ∷ groups) =
      let rest = group_at k groups in if k' === k then items else rest

  abbrev item_if : Bool → A → List A
  item_if true x = x ∷ []
  item_if false x = []

  group_at-pushed :
      (k j i : Text) (item : A) (items : List A) (groups : List (Text × List A))
      (same here asked : Bool)
      → (i === j) ≡ same
      → (i === k) ≡ here
      → (j === k) ≡ asked
      → group_at k (push j item groups) ≡ group_at k groups ++ item_if (j === k) item
      → group_at k (push j item ((i, items) ∷ groups))
        ≡ group_at k ((i, items) ∷ groups) ++ item_if (j === k) item
  group_at-pushed k j i item items groups true true true q r s ih = rw (q, s, r) refl
  group_at-pushed k j i item items groups true false false q r s ih =
      rw (q, s, r) (sym (append-nil (group_at k groups)))
  group_at-pushed k j i item items groups true true false q r s ih =
      absurd (ground (arith, ===_sound i j, q, r, s))
  group_at-pushed k j i item items groups true false true q r s ih =
      absurd (ground (arith, ===_sound i j, q, r, s))
  group_at-pushed k j i item items groups false true true q r s ih =
      absurd (ground (arith, ===_sound i k, ===_sound j k, ===_refl k, q, r, s))
  group_at-pushed k j i item items groups false true false q r s ih =
      rw (q, s, r) (sym (append-nil items))
  group_at-pushed k j i item items groups false false asked q r s ih = rw (q, r) ih

  group_at-push :
      (k j : Text) (item : A) (groups : List (Text × List A))
      → group_at k (push j item groups) ≡ group_at k groups ++ item_if (j === k) item
  group_at-push k j item [] = ground arith
  group_at-push k j item ((i, items) ∷ groups) =
      group_at-pushed k j i item items groups (i === j) (i === k) (j === k) refl refl refl
        (group_at-push k j item groups)

  item_if-filter : (b : Bool) (x : A) (xs : List A) → item_if b x ++ xs ≡ (if b then x ∷ xs else xs)
  item_if-filter true x xs = refl
  item_if-filter false x xs = refl

  group_at-from :
      (key : A → Text) (k : Text) (groups : List (Text × List A)) (arr : List A)
      → group_at k (group_from key groups arr) ≡ group_at k groups ++ filter (λ x. key x === k) arr
  group_at-from key k groups [] = sym (append-nil (group_at k groups))
  group_at-from key k groups (x ∷ arr) =
      group_at-from key k (push (key x) x groups) arr
      ∙ ap (λ g. g ++ filter (λ y. key y === k) arr) (group_at-push k (key x) x groups)
      ∙ append_assoc (group_at k groups) (item_if (key x === k) x) (filter (λ y. key y === k) arr)
      ∙ ap (λ r. group_at k groups ++ r)
          (item_if-filter (key x === k) x (filter (λ y. key y === k) arr))

  -- The group of a key holds the items that have it, all of them and in their order.
  pub group_by_lem :
      (arr : List A) (key : A → Text) (k : Text)
      → group_at k (group_from key [] arr) ≡ filter (λ x. key x === k) arr
  group_by_lem arr key k = group_at-from key k [] arr
