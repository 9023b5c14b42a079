-- ===== src/Bird/Laws.antt =====
-- What the use cases on birds guarantee, over a repository that keeps what it is given.
use nestjs_microservice_boil.Base.{
  ap, ◌∙◌, ◌≢◌, Option-cases, inl, inr, ℕ, Text, ◌≡◌, refl, true, Option, none, some, arith,
}
use nestjs_microservice_boil.Base.Trimming.{trim-trim}
use nestjs_microservice_boil.Exception.{ok, err, api, not_found, literal, Result, zod_error}
use nestjs_microservice_boil.Exec.{World, ◌>>=◌}
use nestjs_microservice_boil.Repository.{Repository}
use nestjs_microservice_boil.Platform.{Platform}
use nestjs_microservice_boil.Entity.{
  Stamps, Nullish, value, over, assign_stamps, initialize_timestamps, construct, deactivate,
}
use nestjs_microservice_boil.Entity.Stored.{ParseLaws, to_object-with_stamps}
use nestjs_microservice_boil.Bird.{
  BirdEntity, BirdObject, parse, parse_id, parse_name, shape, object, spread,
}
use nestjs_microservice_boil.Bird.Usecases.{delete, get_by_id}
use nestjs_microservice_boil.Repository.Updates.{UpdateLaws, is_given}
use nestjs_microservice_boil.Entity.Construct.{construct-parse}

parse_name-parse_name : (s t : Text) → parse_name s ≡ ok t → parse_name t ≡ ok t
unfolding parse_name
parse_name-parse_name s t h = ground (arith, trim-trim s)

is_given-over : (now : ℕ) (x : Nullish ℕ) → is_given (over (value now) x) ≡ true
is_given-over now x = ground arith

module _ (p : Platform) where
  parsed_again :
      (o : BirdObject) (e : BirdEntity) (s : Stamps)
      → parse p o ≡ ok e
      → parse p (object (record e { stamps = s })) ≡ ok (record e { stamps = s })
  unfolding parse parse_id
  parsed_again o e s h = elim (Option-cases o.name) [
    | inl q ↦ absurd (ground arith)
    | inr (raw, q) ↦ ground (arith, parse_name-parse_name raw e.name)
  ]

  pub shape-ParseLaws : ParseLaws (shape p)
  shape-ParseLaws = record {
    parse-object = parsed_again;
    stamps-with_stamps = λ s e. refl;
    with_stamps-with_stamps = λ s t e. refl;
  }

  parse-id : (o : BirdObject) (e : BirdEntity) → parse p o ≡ ok e → o.id ≡ some e.id
  unfolding parse parse_id
  parse-id o e h = ground arith

  construct-id :
      (now : ℕ) (o : BirdObject) (e : BirdEntity)
      → construct (shape p) now o ≡ ok e
      → o.id ≡ some e.id
  construct-id now o e h =
      let (parsed, k, same) = construct-parse (shape p) now o e h in
      parse-id o parsed k ∙ ap (λ (x : BirdEntity). some x.id) same

  -- A constructed bird has a time of its last update.
  is_given-construct :
      (now : ℕ) (o : BirdObject) (e : BirdEntity)
      → construct (shape p) now o ≡ ok e
      → is_given e.stamps.updated_at ≡ true
  unfolding assign_stamps initialize_timestamps
  is_given-construct now o e h =
      let (parsed, k, same) = construct-parse (shape p) now o e h in
      rw (← same) (is_given-over now parsed.stamps.updated_at)

module _ {D : Type 0} (p : Platform) (bird_repository : Repository D BirdEntity)
    (laws : UpdateLaws
      (λ (e : BirdEntity). e.id)
      (λ e. e.stamps)
      (λ s (e : BirdEntity). record e { stamps = s })
      bird_repository) where
  -- The entity that `update` constructs.
  abbrev constructed : ℕ → BirdObject → Result (Option BirdEntity) → Result BirdEntity
  constructed now input (ok (some old)) = construct (shape p) now (spread (object old) input)
  constructed now input _ = err zod_error

  deleted :
      (now later : ℕ) (id : Text) (old : BirdEntity) (c : Result BirdEntity)
      (out : Option BirdEntity) (w after : World D)
      → bird_repository.find_by_id id w.db ≡ ok (some old)
      → construct (shape p) now (object old) ≡ c
      → delete p bird_repository now (some id) w ≡ (ok out, after)
      → (out ≢ none) × (bird_repository.find_by_id id after.db ≡ ok none)
  unfolding delete ◌>>=◌ parse_id deactivate assign_stamps
  deleted now later id old (ok entity) out w after found made h =
      let removed = record entity { stamps = deactivate now entity.stamps } in
      let stored =
        to_object-with_stamps (shape p) (shape-ParseLaws p) now (object old) entity
          (deactivate now entity.stamps) made in
      let same = construct-id p now (object old) entity made in
      let key = laws.find_by_id-id id old w.db found in
      let given = is_given-construct p now (object old) entity made in
      let law = laws.find_by_id-update_one id old removed w.db after.db found in
      (ground (arith, stored), ground (arith, stored, same, key, given, law))
  deleted now later id old (err e) out w after found made h = absurd (ground arith)

  delete-found :
      (now : ℕ) (id : Text) (found : Result (Option BirdEntity)) (out : Option BirdEntity)
      (w after : World D)
      → bird_repository.find_by_id id w.db ≡ found
      → delete p bird_repository now (some id) w ≡ (ok out, after)
      → (old : BirdEntity) × (bird_repository.find_by_id id w.db ≡ ok (some old))
  unfolding delete ◌>>=◌ parse_id
  delete-found now id (ok (some old)) out w after k h = (old, k)
  delete-found now id (ok none) out w after k h = absurd (ground arith)
  delete-found now id (err e) out w after k h = absurd (ground arith)

  -- After a bird is deleted, it is not found.
  pub get_by_id-delete :
      (now later : ℕ) (id : Text) (out : Option BirdEntity) (w after : World D)
      → delete p bird_repository now (some id) w ≡ (ok out, after)
      → get_by_id p bird_repository later (some id) after
        ≡ (err (api not_found (literal "ApiNotFoundException")), after)
  unfolding get_by_id delete ◌>>=◌ parse_id
  get_by_id-delete now later id out w after h =
      let (old, found) =
        delete-found now id (bird_repository.find_by_id id w.db) out w after refl h in
      let (_, gone) =
        deleted now later id old (construct (shape p) now (object old)) out w after found refl h in
      ground (arith, gone, h)
