-- ===== src/Role/Changes.antt =====
-- The loops of the use cases that add permissions to a role and remove them.
use nestjs_microservice_boil.Base.{
  length, All, ◌===◌, refl, sym, ◌∙◌, Bool, false, ◌||◌, Option-cases, Text, ===_iff, ℕ, ◌≡◌, inl,
  inr, none, some, List, [], ◌∷◌, arith, if◌then◌else◌,
}
use mathlib.Core.Path.{subst}
use nestjs_microservice_boil.Permission
use nestjs_microservice_boil.Permission.{PermissionEntity}
use nestjs_microservice_boil.Role.{
  RoleEntity, find_name, Platform, ok, add_permission, remove_permission_by_name,
}
use nestjs_microservice_boil.Role.Usecases.{resolve, add_all, remove_all}
use nestjs_microservice_boil.Entity.Construct.{construct-parse}
use nestjs_microservice_boil.Entity.{construct}
use nestjs_microservice_boil.Role.Permissions.{
  HasDistinctNames, add_permission_lem, find_name-remove_permission_by_name,
}
use nestjs_microservice_boil.Exception.{bind-eq-ok}

find_name-name :
    (n : Text) (qs : List PermissionEntity) (q : PermissionEntity)
    → find_name n qs ≡ some q
    → q.name ≡ n
unfolding find_name
find_name-name n [] q h = cc
find_name-name n (r ∷ qs) q h = ground (arith, find_name-name n qs q, ===_iff r.name n)

-- The name that the role holds for a requested one: a permission that is not stored yet is created
-- under the normalised name.
abbrev pub held_name : Platform → List PermissionEntity → Text → Text
held_name p stored n = elim (find_name n stored) [
  | some _ ↦ n
  | none ↦ Permission.normalize_name p n
]

parse-name :
    (p : Platform) (i n : Text) (q : PermissionEntity)
    → Permission.parse p (record Permission.empty { id = some i; name = some n }) ≡ ok q
    → q.name ≡ Permission.normalize_name p n
unfolding Permission.parse Permission.normalize_name
parse-name p i n q h = ground arith

module _ (p : Platform) (uuid : Text) (now : ℕ) (stored : List PermissionEntity) (n : Text) where
  pub resolve_stored :
      (r : PermissionEntity) → find_name n stored ≡ some r → resolve p uuid now stored n ≡ ok r
  unfolding resolve
  resolve_stored r e = rw (e, resolve) refl

  pub resolve_new :
      find_name n stored ≡ none
      → resolve p uuid now stored n
        ≡ construct
            (Permission.shape p)
            now
            (record Permission.empty { id = some uuid; name = some n })
  unfolding resolve
  resolve_new e = rw (e, resolve) refl

  resolve-name :
      (q : PermissionEntity) → resolve p uuid now stored n ≡ ok q → q.name ≡ held_name p stored n
  resolve-name q h = elim (Option-cases (find_name n stored)) [
    | inr (r, e) ↦
        let same : r ≡ q = ground (arith, resolve_stored r e, h) in
        rw (e, held_name) (rw (← same) (find_name-name n stored r e))
    | inl e ↦
        let (parsed, k, same) =
          construct-parse (Permission.shape p) now
            (record Permission.empty { id = some uuid; name = some n }) q
            (sym (resolve_new e) ∙ h) in
        rw (e, held_name) (rw (← same) (parse-name p uuid n parsed k))
  ]

module _ (p : Platform) (uuid : ℕ → Text) (now : ℕ) (stored : List PermissionEntity) where
  -- What a role has after the loop: distinct names, all that it had, and every requested name.
  pub record HasAll (before : RoleEntity) (names : List Text) (after : RoleEntity) : Type 0 where
    pub distinct : HasDistinctNames after.permissions
    pub kept :
        (n : Text) (q : PermissionEntity)
        → find_name n before.permissions ≡ some q
        → find_name n after.permissions ≡ some q
    pub requested :
        All
          (λ n.
            (q : PermissionEntity) × (find_name (held_name p stored n) after.permissions ≡ some q))
          names

  add_all-cons :
      (n : Text) (names : List Text) (role after : RoleEntity) (q : PermissionEntity)
      → HasDistinctNames role.permissions
      → resolve p (uuid (length names)) now stored n ≡ ok q
      → HasAll (add_permission q role) names after
      → HasAll role (n ∷ names) after
  add_all-cons n names role after q d h rest =
      let (_, (r, held), kept) = add_permission_lem q role d in
      record {
        distinct = rest.distinct;
        kept = λ m s k. rest.kept m s (kept m s k);
        requested = (
          (
            r,
            rest.kept (held_name p stored n) r (
                subst (λ k. find_name k (add_permission q role).permissions ≡ some r)
                  (resolve-name p (uuid (length names)) now stored n q h) held),
          ),
          rest.requested,
        );
      }

  pub add_all-HasAll :
      (names : List Text) (role after : RoleEntity)
      → HasDistinctNames role.permissions
      → add_all p uuid now stored names role ≡ ok after
      → HasAll role names after
  unfolding add_all
  add_all-HasAll [] role after d h =
      let same : role ≡ after = ground arith in
      rw (← same) (record { distinct = d; kept = λ n q k. k; requested = tt })
  add_all-HasAll (n ∷ names) role after d h =
      let (q, k, rest) = bind-eq-ok (resolve p (uuid (length names)) now stored n) _ h in
      let (d', _, _) = add_permission_lem q role d in
      add_all-cons n names role after q d k
        (add_all-HasAll names (add_permission q role) after d' rest)

-- Whether the loop of the use case that deletes permissions removes the name `m`.
abbrev pub removes : List PermissionEntity → List Text → Text → Bool
removes stored [] m = false
removes stored (n ∷ names) m =
    (elim (find_name n stored) [ none ↦ false | some _ ↦ n === m ]) || removes stored names m

-- The loop removes exactly the requested names that are stored, and what the role finds under any
-- other name is what it found before.
pub find_name-remove_all :
    (stored : List PermissionEntity) (names : List Text) (role : RoleEntity) (m : Text)
    → find_name m (remove_all stored names role).permissions
      ≡ (if removes stored names m then none else find_name m role.permissions)
unfolding remove_all
find_name-remove_all stored [] role m = refl
find_name-remove_all stored (n ∷ names) role m = ground (
  arith,
  find_name-remove_all stored names role m,
  find_name-remove_all stored names (remove_permission_by_name n role) m,
  find_name-remove_permission_by_name n m role,
)
