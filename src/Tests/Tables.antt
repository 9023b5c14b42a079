-- ===== src/Tests/Tables.antt =====
-- A table behind the Postgres repository, and a registry of breakers.
use nestjs_microservice_boil.Base.{
  Text, codes, ◌===◌, ℕ, ◌≡◌, refl, Bool, false, Option, none, some, List, [], ◌∷◌, ◌++◌, suc,
  if◌then◌else◌,
}
use nestjs_microservice_boil.Store.Postgres.Commands.{find_by_commands}
use nestjs_microservice_boil.Store.Postgres.Commands.Laws.{
  find_by_commands-injection, equal_command,
}
use nestjs_microservice_boil.Store.Postgres.{is, Where, TypeOrm}
use nestjs_microservice_boil.Store.Filter.{id_key, deleted_at}
use nestjs_microservice_boil.Value.{Value, Fields, end, field, text, number, get, delete}
use nestjs_microservice_boil.Breaker.{
  Params, call, on_event, reset_circuit_breaker, cleanup_circuit_breakers, Blueprint, Registry,
}
use nestjs_microservice_boil.Entity.{value, undefined, null, Nullish, Stamps}
use nestjs_microservice_boil.Breaker.Laws.{IsConsistent, operations-IsConsistent}
use nestjs_microservice_boil.Exception.{ok, err, foreign}
use nestjs_microservice_boil.Repository.Updates.{visible, after_update}
use mathlib.Core.Option
use nestjs_microservice_boil.Bird.{BirdEntity}
use nestjs_microservice_boil.Number.{integer, pos}
use nestjs_microservice_boil.Tests.World.{start}

-- A table without rows.
abbrev nothing_known : {D E : Type 0} → TypeOrm D E
nothing_known = record {
  find = λ options d. ok [];
  find_one = λ options d. ok none;
  find_and_count = λ take skip order where_ d. ok ([], 0);
  exists = λ where_ d. ok false;
  save = λ o d. (ok (false, []), d);
  insert = λ os d. (ok tt, d);
  update = λ where_ o d. (ok none, d);
  delete = λ where_ d. (ok none, d);
  soft_remove = λ o d. (err (foreign "no row"), d);
  columns = [];
}

abbrev bird_stamps : BirdEntity → Stamps
bird_stamps e = e.stamps

abbrev with_bird_stamps : Stamps → BirdEntity → BirdEntity
with_bird_stamps s e = record e { stamps = s }

-- A date of an entity among the columns: one that is `undefined` is left out.
abbrev dated : Text → Nullish ℕ → Fields → Fields
dated key undefined fs = fs
dated key null fs = field key Value.null fs
dated key (value n) fs = field key (number (integer (pos n))) fs

abbrev date_of : Option Value → Nullish ℕ
date_of none = undefined
date_of (some (number (integer (pos n)))) = value n
date_of (some _) = null

abbrev text_of : Option Value → Text
text_of (some (text s)) = s
text_of _ = []

abbrev created_key : Text
created_key = codes "createdAt"

abbrev updated_key : Text
updated_key = codes "updatedAt"

abbrev name_key : Text
name_key = codes "name"

abbrev written : Option BirdEntity → Fields
written none = end
written (some e) = field id_key (text e.id) (
    field name_key (text e.name) (
      dated created_key e.stamps.created_at
        (dated updated_key e.stamps.updated_at (dated deleted_at e.stamps.deleted_at end))))

abbrev row : BirdEntity → Fields
row e = written (some e)

abbrev given : Fields → BirdEntity
given fs = record {
  id = text_of (get id_key fs);
  name = text_of (get name_key fs);
  stamps = record {
    created_at = date_of (get created_key fs);
    updated_at = date_of (get updated_key fs);
    deleted_at = date_of (get deleted_at fs);
  };
}

-- A table of one row.
abbrev keyed : Text → Option BirdEntity → Option BirdEntity
keyed key none = none
keyed key (some e) = if e.id === key then some e else none

abbrev found : List Where → Option BirdEntity → Option BirdEntity
found (((_, is (text key)) ∷ []) ∷ []) stored = visible bird_stamps (keyed key stored)
found _ stored = none

abbrev changed : Where → BirdEntity → Option BirdEntity → Option BirdEntity
changed ((_, is (text key)) ∷ []) e (some old) =
    if old.id === key then some (after_update bird_stamps with_bird_stamps old e) else some old
changed _ e stored = stored

abbrev table : TypeOrm (Option BirdEntity) BirdEntity
table = record nothing_known {
  find_one = λ options stored. ok (found options.where_any stored);
  update = λ conditions fs stored. (ok (some 1), changed conditions (given fs) stored);
}

abbrev bird : (i n : Text) (a b c : Nullish ℕ) → BirdEntity
bird i n a b c = record {
  id = i;
  name = n;
  stamps = record { created_at = a; updated_at = b; deleted_at = c };
}

abbrev text_shown : Value → Text
text_shown (text s) = s
text_shown _ = []

find_by_commands-injection_example :
    find_by_commands text_shown table
      (equal_command (codes "name") (text (codes "a" ++ codes ", " ++ codes "b") ∷ []) ∷ [])
      (start none)
    ≡ find_by_commands text_shown table
        (equal_command (codes "name") (text (codes "a") ∷ text (codes "b") ∷ []) ∷ [])
        (start none)
find_by_commands-injection_example =
    find_by_commands-injection text_shown table (codes "name") (codes "a") (codes "b") [] []
      (start none) (λ s. refl)

-- A breaker is how often it was called.
abbrev registry : Registry ℕ
registry = record { events = []; breaker_instances = []; instance_configs = [] }

abbrev plain_params : Params
plain_params = record {
  error_threshold_percentage = none;
  volume_threshold = none;
  rolling_count_timeout = none;
  reset_timeout = none;
  allow_warm_up = none;
  circuit_group = none;
}

abbrev has_no_method : ℕ → Text → Bool
has_no_method this name = false

abbrev fire_once : ℕ → ℕ → ℕ × ℕ
fire_once args count = (args, suc count)

abbrev create_new : Blueprint ℕ → ℕ
create_new plan = 0

operations-IsConsistent_example :
    let mailer = codes "Mailer" in
    let send = codes "send" in
    IsConsistent (call has_no_method create_new fire_once mailer send plain_params 1 5 registry).1
    × IsConsistent (reset_circuit_breaker (λ b. 0) mailer send (codes "default") registry).1
    × IsConsistent (on_event mailer (codes "default") (codes "open") send registry)
    × IsConsistent (cleanup_circuit_breakers registry).1
operations-IsConsistent_example =
    operations-IsConsistent has_no_method create_new fire_once (λ b. 0) (codes "Mailer")
      (codes "send") (codes "default") (codes "open") plain_params 1 5 registry refl
