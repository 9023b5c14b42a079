-- ===== src/Cat/Laws.antt =====
-- What an update of a cat guarantees.
use nestjs_microservice_boil.Base.{
  ap, ◌∙◌, ℕ, Text, ◌≡◌, refl, true, Option, none, some, arith, ◌∷◌, [], ◌++◌,
}
use mathlib.Core.Path.{subst}
use mathlib.Core.List.{append_assoc}
use nestjs_microservice_boil.Entity.Merge.{merge_lem, MergeLaws, to_object-merge}
use nestjs_microservice_boil.Base.Trimming.{trim-trim}
use nestjs_microservice_boil.Exception.{ok, err, Result, data_of}
use nestjs_microservice_boil.Exec.{World, ◌>>=◌, info, log_event}
use nestjs_microservice_boil.Exec.Chain.{validate_schema-eq-ok}
use nestjs_microservice_boil.Repository.{Repository, by_id}
use nestjs_microservice_boil.Platform.{Platform}
use nestjs_microservice_boil.Entity.{Stamps, assign_stamps, construct, merge, to_object}
use nestjs_microservice_boil.Entity.Stored.{ParseLaws, parse-construct}
use nestjs_microservice_boil.Number.{Number}
use nestjs_microservice_boil.Cat.{
  CatEntity, CatObject, parse, parse_id, parse_name, parse_age, shape, object, spread,
}
use nestjs_microservice_boil.Cat.Usecases.{update, update_schema, update_execute}

parse_name-parse_name : (s t : Text) → parse_name s ≡ ok t → parse_name t ≡ ok t
unfolding parse_name
parse_name-parse_name s t h = ground (arith, trim-trim s)

parse_age-parse_age : (x y : Number) → parse_age x ≡ ok y → parse_age y ≡ ok y
unfolding parse_age
parse_age-parse_age x y h = ground arith

assign_stamps-twice :
    (s t : Stamps)
    → assign_stamps (assign_stamps s (assign_stamps s t)) (assign_stamps s t) ≡ assign_stamps s t
unfolding assign_stamps
assign_stamps-twice s t = ground arith

module _ (p : Platform) where
  -- Each required field was there and was accepted.
  abbrev Accepted : CatObject → CatEntity → Type 0
  Accepted o e =
      (name breed : Text) × (age : Number) × (o.id ≡ some e.id)
      × (p.is_uuid e.id ≡ true)
      × (o.name ≡ some name)
      × (parse_name name ≡ ok e.name)
      × (o.breed ≡ some breed)
      × (parse_name breed ≡ ok e.breed)
      × (o.age ≡ some age)
      × (parse_age age ≡ ok e.age)
      × (e.stamps ≡ o.stamps)

  parse_cases :
      (o : CatObject) (e : CatEntity) (name breed : Option Text) (age : Option Number)
      → o.name ≡ name
      → o.breed ≡ breed
      → o.age ≡ age
      → parse p o ≡ ok e
      → Accepted o e
  unfolding parse parse_id
  parse_cases o e (some name) (some breed) (some age) q r s h = (
    name,
    breed,
    age,
    ground arith,
    ground arith,
    q,
    ground arith,
    r,
    ground arith,
    s,
    ground arith,
    ground arith,
  )
  parse_cases o e none breed age q r s h = absurd (ground arith)
  parse_cases o e (some name) none age q r s h = absurd (ground arith)
  parse_cases o e (some name) (some breed) none q r s h = absurd (ground arith)

  parse-Accepted : (o : CatObject) (e : CatEntity) → parse p o ≡ ok e → Accepted o e
  parse-Accepted o e h = parse_cases o e o.name o.breed o.age refl refl refl h

  Accepted-parse : (o : CatObject) (e : CatEntity) → Accepted o e → parse p o ≡ ok e
  unfolding parse parse_id
  Accepted-parse o e (name, breed, age, id, uuid, q, named, r, bred, s, aged, stamped) =
      ground arith

  parsed_again :
      (o : CatObject) (e : CatEntity) (s : Stamps)
      → parse p o ≡ ok e
      → parse p (object (record e { stamps = s })) ≡ ok (record e { stamps = s })
  parsed_again o e s h =
      let (name, breed, age, id, uuid, q, named, r, bred, t, aged, stamped) =
        parse-Accepted o e h in
      Accepted-parse (object (record e { stamps = s })) (record e { stamps = s })
        (
          e.name,
          e.breed,
          e.age,
          refl,
          uuid,
          refl,
          parse_name-parse_name name e.name named,
          refl,
          parse_name-parse_name breed e.breed bred,
          refl,
          parse_age-parse_age age e.age aged,
          refl,
        )

  pub shape-ParseLaws : ParseLaws (shape p)
  shape-ParseLaws = record {
    parse-object = parsed_again;
    stamps-with_stamps = λ s e. refl;
    with_stamps-with_stamps = λ s t e. refl;
  }

  merged_again :
      (e accepted parsed : CatEntity) (partial : CatObject)
      → parse p (object e) ≡ ok accepted
      → parse p (spread (object accepted) partial) ≡ ok parsed
      → parse p (
          object (
            (shape p).assign
              ((shape p).assign e (object parsed))
              (spread (object accepted) partial)))
        ≡ ok parsed
  merged_again e accepted parsed partial a h =
      let (name, breed, age, id, uuid, q, named, r, bred, t, aged, stamped) =
        parse-Accepted (spread (object accepted) partial) parsed h in
      let (_, _, _, _, _, _, _, _, _, _, _, kept) = parse-Accepted (object e) accepted a in
      let o = spread (object accepted) partial in
      Accepted-parse _ parsed (
        name,
        breed,
        age,
        ground arith,
        uuid,
        ground arith,
        named,
        ground arith,
        bred,
        ground arith,
        aged,
        ground (arith, assign_stamps-twice e.stamps partial.stamps),
      )

  pub shape-MergeLaws : MergeLaws (shape p)
  shape-MergeLaws = record { parse-object-assign = merged_again }

  -- Although `merge` assigns the unparsed fields over the parsed ones, `toObject` after a successful
  -- merge into a cat that the schema accepts is the parsed form of the merged object.
  pub to_object-merge_cat :
      (e accepted after : CatEntity) (partial : CatObject)
      → parse p (object e) ≡ ok accepted
      → merge (shape p) e partial ≡ ok after
      → to_object (shape p) after ≡ data_of (parse p (spread (object accepted) partial))
  to_object-merge_cat e accepted after partial a h =
      to_object-merge (shape p) shape-MergeLaws e accepted after partial a h

  merge-id :
      (e after : CatEntity) (input : CatObject) (id : Text)
      → input.id ≡ some id
      → merge (shape p) e input ≡ ok after
      → after.id ≡ id
  unfolding merge
  merge-id e after input id q h = ground arith

module _ {D : Type 0} (p : Platform) (cat_repository : Repository D CatEntity) where
  update_schema-ok :
      (id i : Text) (o input : CatObject)
      → o.id ≡ some id
      → update_schema p cat_repository o ≡ ok (i, input)
      → (i ≡ id) × (input.id ≡ some id)
  unfolding update_schema parse_id
  update_schema-ok id i o input q h = ground arith

  written :
      (actor : Text) (now : ℕ) (id : Text) (input : CatObject) (old e : CatEntity)
      (m r : Result CatEntity) (out : Option CatEntity) (w after : World D)
      → input.id ≡ some id
      → cat_repository.find_by_id id w.db ≡ ok (some old)
      → construct (shape p) now (object old) ≡ ok e
      → merge (shape p) e input ≡ m
      → parse p (spread (object e) input) ≡ r
      → update_execute p cat_repository actor now (id, input) w ≡ (ok out, after)
      → (parsed : CatEntity) × (r ≡ ok parsed)
        × (after.db ≡ (cat_repository.update_one (by_id id) (some parsed) w.db).1)
        × (after.effects
            ≡ w.effects ++ info "cat updated." ∷ log_event "cat-updated" "updated" actor id ∷ [])
  unfolding update_execute ◌>>=◌
  written actor now id input old e (ok c) (ok parsed) out w after q found made merged k h =
      let accepted = parse-construct (shape p) (shape-ParseLaws p) now (object old) e made in
      let stored = to_object-merge (shape p) (shape-MergeLaws p) e e c input accepted merged in
      let key = merge-id p e c input id q merged in
      let two =
        append_assoc w.effects (info "cat updated." ∷ [])
          (log_event "cat-updated" "updated" actor id ∷ []) in
      (parsed, refl, ground (arith, stored, key), ground (arith, stored, key, two))
  written actor now id input old e (ok c) (err x) out w after q found made merged k h =
      let accepted = parse-construct (shape p) (shape-ParseLaws p) now (object old) e made in
      let lem = merge_lem (shape p) (shape-MergeLaws p) e e input accepted in
      absurd (ground (arith, lem))
  written actor now id input old e (err x) r out w after q found made merged k h =
      absurd (ground arith)

  -- An update of a cat that returns has written, under the id that was given, what the schema makes
  -- of the stored cat with the given fields put in; and it has logged one message and one event.
  pub update-merged :
      (actor : Text) (now : ℕ) (id : Text) (o : CatObject) (old e : CatEntity)
      (out : Option CatEntity) (w after : World D)
      → o.id ≡ some id
      → cat_repository.find_by_id id w.db ≡ ok (some old)
      → construct (shape p) now (object old) ≡ ok e
      → update p cat_repository actor now o w ≡ (ok out, after)
      → (input : CatObject) × (update_schema p cat_repository o ≡ ok (id, input))
        × (parsed : CatEntity) × (parse p (spread (object e) input) ≡ ok parsed)
        × (after.db ≡ (cat_repository.update_one (by_id id) (some parsed) w.db).1)
        × (after.effects
            ≡ w.effects ++ info "cat updated." ∷ log_event "cat-updated" "updated" actor id ∷ [])
  unfolding update
  update-merged actor now id o old e out w after q found made h =
      let ((i, input), accepted, run) =
        validate_schema-eq-ok (update_schema p cat_repository o)
          (update_execute p cat_repository actor now) w after out h in
      let (key, named) = update_schema-ok id i o input q accepted in
      let (parsed, made_of, stored, logged) =
        written actor now id input old e (merge (shape p) e input)
          (parse p (spread (object e) input)) out w after named found made refl refl
          (subst (λ k. update_execute p cat_repository actor now (k, input) w ≡ (ok out, after)) key
            run) in
      (input, accepted ∙ ap (λ (k : Text). ok (k, input)) key, parsed, made_of, stored, logged)
