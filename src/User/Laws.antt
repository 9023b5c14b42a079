-- ===== src/User/Laws.antt =====
-- What the use cases on users guarantee.
use nestjs_microservice_boil.Base.{
  All, sym, ◌⊎◌, inl, inr, ===_refl, refl, length, Text, ===_iff, ℕ, ◌≤◌, ◌≡◌, Option, none, some,
  List, [], ◌∷◌, ◌++◌, arith,
}
use mathlib.Core.Path.{subst}
use mathlib.Core.List.{append_assoc}
use nestjs_microservice_boil.Exec.{◌>>=◌, World, info, emit, log_event, Email}
use nestjs_microservice_boil.User.Usecases.{
  change_password, create, delete, get_by_id, UserCreateObject,
}
use nestjs_microservice_boil.User.{
  UserEntity, object, shape, Platform, RoleEntity, ok, Result, empty,
}
use nestjs_microservice_boil.User
use nestjs_microservice_boil.Repository.{Repository, CreatedModel, by_id, by_email}
use nestjs_microservice_boil.Entity.{construct, construct_nullable}
use nestjs_microservice_boil.User.Password
use nestjs_microservice_boil.User.Password.{UserPasswordEntity, verify_password}
use nestjs_microservice_boil.User.Written.{
  IsKept, construct-fields, construct-whole, construct-secret, hashed, to_object-whole,
}
use nestjs_microservice_boil.Exception.{Exception, err}
use nestjs_microservice_boil.Exec.Clean.{FailsCleanly, Reads, clean_rules}

-- The mail that greets a new user.
abbrev pub welcome : (email name : Text) → Email
welcome email name = record {
  email = email;
  subject = "Welcome";
  template = "welcome";
  name = name;
  link = none;
}

append-append-append :
    {A : Type 0} (xs : List A) (a b c : A)
    → ((xs ++ a ∷ []) ++ b ∷ []) ++ c ∷ [] ≡ xs ++ a ∷ b ∷ c ∷ []
append-append-append xs a b c = simp append_assoc

module _ {D : Type 0} (p : Platform) (user_repository : Repository D UserEntity) where
  -- Changing a password does not depend on the new password: whatever the database and the call,
  -- the result and the database afterwards are the same for any two new passwords that are given
  -- twice alike.
  pub change_password_ignores_new :
      (now : ℕ) (id password : Option Text) (new other : Text) (w : World D)
      → change_password p user_repository now id password (some new) (some new) w
        ≡ change_password p user_repository now id password (some other) (some other) w
  unfolding change_password ◌>>=◌
  change_password_ignores_new now id password new other w =
      ground (arith, ===_refl new, ===_refl other)

  checked :
      (now : ℕ) (id password new confirm : Text) (found : UserEntity)
      (had : Option UserPasswordEntity) (w after : World D)
      → found.password ≡ had
      → user_repository.find_one_with_relation (by_id id) w.db ≡ ok (some found)
      → change_password p user_repository now (some id) (some password) (some new) (some confirm) w
        ≡ (ok tt, after)
      → (stored : UserPasswordEntity) × (had ≡ some stored)
        × (stored.password ≡ p.hash password)
        × (new ≡ confirm)
        × (after ≡ record w { db = (user_repository.create (some found) w.db).1 })
  unfolding change_password ◌>>=◌ User.parse_id verify_password Password.parse construct_nullable
      construct
  checked now id password new confirm found (some stored) w after q k h = (
    stored,
    refl,
    ground (arith, q, ===_iff stored.password (p.hash password)),
    ground (arith, q, ===_iff new confirm),
    ground (arith, q),
  )
  checked now id password new confirm found none w after q k h = absurd (ground (arith, q))

  -- A change of password that returns is of a user with a stored password, which is the hash of the
  -- old password that was given; the new one is as its confirmation, and the user was written
  -- exactly as it was read.
  pub change_password-ok :
      (now : ℕ) (id password new confirm : Text) (found : UserEntity) (w after : World D)
      → user_repository.find_one_with_relation (by_id id) w.db ≡ ok (some found)
      → change_password p user_repository now (some id) (some password) (some new) (some confirm) w
        ≡ (ok tt, after)
      → (stored : UserPasswordEntity) × (found.password ≡ some stored)
        × (stored.password ≡ p.hash password)
        × (new ≡ confirm)
        × (after ≡ record w { db = (user_repository.create (some found) w.db).1 })
  change_password-ok now id password new confirm found w after k h =
      checked now id password new confirm found found.password w after refl k h

  -- What `create` writes: a user with the id and the fields that were given, the roles that were
  -- found, and a password that keeps the hash of the one that was given.
  abbrev pub Saved :
      (uuid password_uuid email name password : Text) (roles : List RoleEntity) (out : CreatedModel)
      (d d' : D)
      → Type 0
  Saved uuid password_uuid email name password roles out d d' =
      (user : UserEntity) × (secret : UserPasswordEntity) × (user_repository.create (some user) d
        ≡ (ok out, d'))
      × (user.id ≡ uuid)
      × (user.name ≡ name)
      × (user.email ≡ email)
      × (user.roles ≡ roles)
      × (user.password ≡ some secret)
      × (secret.id ≡ password_uuid)
      × (secret.password ≡ p.hash password)

  module _ (role_repository : Repository D RoleEntity) where
    created :
        (actor uuid password_uuid : Text) (now : ℕ) (email name password : Text) (names : List Text)
        (roles : List RoleEntity) (out : CreatedModel) (w after : World D)
        → role_repository.find_in names w.db ≡ ok roles
        → All (IsKept p) roles
        → (r : Result UserEntity) (t : Result UserPasswordEntity)
        → construct (shape p) now (record empty {
          id = some uuid;
          name = some name;
          email = some email;
          roles = some roles;
        })
          ≡ r
        → construct
            (Password.shape p)
            now
            (record Password.empty { id = some password_uuid; password = some password })
          ≡ t
        → create p user_repository role_repository actor uuid password_uuid now
            (record {
              email = some email;
              name = some name;
              password = some password;
              roles = some names;
            })
            w
          ≡ (ok out, after)
        → (length names ≤ length roles)
          × (user_repository.find_one (by_email email) w.db ≡ ok none)
          × Saved uuid password_uuid email name password roles out w.db after.db
          × (after.effects
              ≡ w.effects
                ++ info "user created successfully"
                  ∷ emit (welcome email name)
                  ∷ log_event "user-created" "created" actor uuid
                  ∷ [])
    unfolding create ◌>>=◌ User.parse_email
    created actor uuid password_uuid now email name password names roles out w after k kept
          (ok entity) (ok secret) c t h =
        let (same_id, same_name, same_email) =
          construct-fields p now uuid name email roles entity c in
        let (secret_uuid, secret_id, secret_text) =
          construct-secret p now password_uuid password secret t in
        let (key, hash) = hashed p password_uuid password secret (secret_id, secret_text) in
        let (same_roles, user_uuid, user_email) =
          construct-whole p now uuid name email roles entity kept c in
        let whole =
          to_object-whole p entity (Password.create_password p secret)
            (subst (All (IsKept p)) (sym same_roles) kept) user_uuid user_email
            (unfold Password.create_password in secret_uuid) in
        let three =
          append-append-append w.effects (info "user created successfully")
            (emit (welcome email name)) (log_event "user-created" "created" actor uuid) in
        (
          ground (arith, same_id, same_email, k, c, t, h),
          ground (arith, same_id, same_email, k, c, t, h),
          (
            record entity { password = some (Password.create_password p secret) },
            Password.create_password p secret,
            ground (arith, whole, k, c, t, h),
            same_id,
            same_name,
            same_email,
            same_roles,
            refl,
            key,
            hash,
          ),
          ground (arith, same_id, same_email, three, k, c, t, h),
        )
    created actor uuid password_uuid now email name password names roles out w after k kept
          (ok entity) (err x) c t h =
        absurd (ground (arith, k, c, t, h))
    created actor uuid password_uuid now email name password names roles out w after k kept (err x)
          y c t h =
        absurd (ground (arith, k, c, h))

    -- Where the roles that are found are as their schema leaves them: a user is created only where at
    -- least as many roles were found as names were given, and where no stored user has the email.
    -- What is written, with the result returned, is a user with the new id, the name and the email
    -- that were given, the roles that were found and the hash of the password. The log message, the
    -- welcome mail and the trace event follow, in this order.
    pub create-welcome :
        (actor uuid password_uuid : Text) (now : ℕ) (email name password : Text) (names : List Text)
        (roles : List RoleEntity) (out : CreatedModel) (w after : World D)
        → role_repository.find_in names w.db ≡ ok roles
        → All (IsKept p) roles
        → create p user_repository role_repository actor uuid password_uuid now
            (record {
              email = some email;
              name = some name;
              password = some password;
              roles = some names;
            })
            w
          ≡ (ok out, after)
        → (length names ≤ length roles)
          × (user_repository.find_one (by_email email) w.db ≡ ok none)
          × Saved uuid password_uuid email name password roles out w.db after.db
          × (after.effects
              ≡ w.effects
                ++ info "user created successfully"
                  ∷ emit (welcome email name)
                  ∷ log_event "user-created" "created" actor uuid
                  ∷ [])
    create-welcome actor uuid password_uuid now email name password names roles out w after k kept
          h =
        created actor uuid password_uuid now email name password names roles out w after k kept _ _
          refl refl h

    -- A write of the repository threw `e` and left the database as `d'`.
    abbrev pub FailedWrite : Exception → D → D → Type 0
    FailedWrite e d d' =
        ((doc : Option UserEntity) × (user_repository.create doc d ≡ (err e, d')))
        ⊎ ((id : Text) × (user_repository.soft_remove (by_id id) d ≡ (err e, d')))

    create_failed :
        (doc : Option UserEntity) (d d' : D) (e : Exception)
        → user_repository.create doc d ≡ (err e, d')
        → FailedWrite e d d'
    create_failed doc d d' e h = inl (doc, h)

    remove_failed :
        (id : Text) (d d' : D) (e : Exception)
        → user_repository.soft_remove (by_id id) d ≡ (err e, d')
        → FailedWrite e d d'
    remove_failed id d d' e h = inr (id, h)

    -- Creating and deleting a user, and changing a password, fail cleanly: what throws has had no
    -- effect on the logger, the mail and the tracing, and has left the database as it was unless
    -- it is the failure of the one write. Reading a user changes nothing.
    pub user_usecases-FailsCleanly :
        (actor uuid password_uuid : Text) (now : ℕ) (o : UserCreateObject)
        (id password new confirm : Option Text)
        → FailsCleanly FailedWrite
            (create p user_repository role_repository actor uuid password_uuid now o)
          × FailsCleanly FailedWrite (delete p user_repository actor now id)
          × FailsCleanly FailedWrite (change_password p user_repository now id password new confirm)
          × Reads (get_by_id p user_repository now id)
    unfolding create delete change_password get_by_id
    user_usecases-FailsCleanly actor uuid password_uuid now o id password new confirm = (
      search (clean_rules, create_failed) depth 30,
      search (clean_rules, remove_failed) depth 20,
      search (clean_rules, create_failed) depth 20,
      search clean_rules depth 20,
    )
