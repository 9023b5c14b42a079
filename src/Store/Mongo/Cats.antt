-- ===== src/Store/Mongo/Cats.antt =====
-- The use cases on cats over the Mongo repository (modules/cat/repository.ts): what a deletion does.
use nestjs_microservice_boil.Base.{
  sym, ◌∙◌, ap, ◌===◌, truthy, true, ◌∷◌, ℕ, Text, Option, none, some, [], ◌≡◌, refl, arith,
}
use mathlib.Core.Path.{subst}
use nestjs_microservice_boil.Exception.{Result, ok, err, data_of}
use nestjs_microservice_boil.Exec.{World, ◌>>=◌}
use nestjs_microservice_boil.Platform.{Platform}
use nestjs_microservice_boil.Entity.{
  Stamps, construct, assign_stamps, initialize_timestamps, to_object,
}
use nestjs_microservice_boil.Repository.{by_id, Repository}
use nestjs_microservice_boil.Value.{Value, null, text, Fields, end, field, get}
use nestjs_microservice_boil.Store.{try_catch}
use nestjs_microservice_boil.Store.Filter.{deleted_at, mongo_id, convert_filter, full_key}
use nestjs_microservice_boil.Store.Mongo
use nestjs_microservice_boil.Store.Document.{Host}
use nestjs_microservice_boil.Store.Mongo.{set}
use nestjs_microservice_boil.Store.Mongo.Port.{repository, criteria_filter}
use nestjs_microservice_boil.Cat.{CatEntity, shape, object, parse_id, parse}
use nestjs_microservice_boil.Cat.Usecases.{delete, get_by_id}
use nestjs_microservice_boil.Entity.Construct.{construct-parse}
use nestjs_microservice_boil.Cat.Laws.{shape-ParseLaws}

-- What Mongoose does: a search by an id returns the document with that `_id`, whatever else it
-- has. After an update of the document with an id and without a date of deletion, to one with a
-- date, that search still finds the document, and nothing but its dates may have changed: the
-- schema has `timestamps: true`, so an update also moves the date of the last update.
pub record RemoveLaws {D M : Type 0} (host : Host D M CatEntity) (date : Value) : Type 0 where
  pub find_by_id-id :
      (id : Text) (m : M) (d : D)
      → host.model.find_by_id id d ≡ ok (some m)
      → (host.to_object m).id ≡ id
  pub find_by_id-find_one_and_update :
      (id : Text) (m : M) (found : Option M) (d d' : D)
      → host.model.find_by_id id d ≡ ok (some m)
      → host.model.find_one_and_update
          (field deleted_at null (field mongo_id (text id) end))
          (field deleted_at date end)
          d
        ≡ (ok found, d')
      → (m' : M) × (dates : Stamps) × (host.model.find_by_id id d' ≡ ok (some m'))
        × (host.to_object m' ≡ record (host.to_object m) { stamps = dates })

twice_converted :
    (id : Text)
    → truthy id ≡ true
    → convert_filter (convert_filter (criteria_filter (by_id id)))
      ≡ field deleted_at null (field mongo_id (text id) end)
unfolding convert_filter ◌===◌ nestjs_microservice_boil.Value.get nestjs_microservice_boil.Value.set
    nestjs_microservice_boil.Value.delete full_key
twice_converted [] h = cc
twice_converted (c ∷ id) h = refl

module _ {D M : Type 0} (p : Platform) (host : Host D M CatEntity)
    (written : Option CatEntity → Fields) (date : Value) (laws : RemoveLaws host date) where
  -- The cats of the program: the joins are none.
  abbrev cats : Repository D CatEntity
  cats = repository host written [] date

  found-eq :
      (id : Text) (d : D) (r : Result (Option M)) (cat : CatEntity)
      → host.model.find_by_id id d ≡ r
      → cats.find_by_id id d ≡ ok (some cat)
      → (m : M) × (host.model.find_by_id id d ≡ ok (some m)) × (host.to_object m ≡ cat)
  unfolding repository try_catch Mongo.find_by_id
  found-eq id d (ok (some m)) cat q h = (m, q, ground (arith, q, h))
  found-eq id d (ok none) cat q h = absurd (ground (arith, q, h))
  found-eq id d (err e) cat q h = absurd (ground (arith, q, h))

  eq-found :
      (id : Text) (d : D) (m : M)
      → host.model.find_by_id id d ≡ ok (some m)
      → cats.find_by_id id d ≡ ok (some (host.to_object m))
  unfolding repository try_catch Mongo.find_by_id
  eq-found id d m q = ground (arith, q)

  removed-eq :
      (id : Text) (d d' : D) (r : Result (Option M))
      → (host.model.find_one_and_update
          (field deleted_at null (field mongo_id (text id) end))
          (field deleted_at date end)
          d).0
        ≡ r
      → truthy id ≡ true
      → cats.soft_remove (by_id id) d ≡ (ok tt, d')
      → (found : Option M) × (host.model.find_one_and_update
            (field deleted_at null (field mongo_id (text id) end))
            (field deleted_at date end)
            d
          ≡ (ok found, d'))
  unfolding repository try_catch Mongo.soft_remove
  removed-eq id d d' (ok found) q t h = (found, ground (arith, q, h, twice_converted id t))
  removed-eq id d d' (err e) q t h = absurd (ground (arith, q, h, twice_converted id t))

  ran :
      (actor id : Text) (now : ℕ) (found : Result (Option CatEntity)) (made : Result CatEntity)
      (old : CatEntity) (out : Option CatEntity) (w after : World D)
      → cats.find_by_id id w.db ≡ found
      → construct (shape p) now (object old) ≡ made
      → found ≡ ok (some old)
      → delete p cats actor now (some id) w ≡ (ok out, after)
      → (e : CatEntity) × (made ≡ ok e)
        × (p.is_uuid id ≡ true)
        × (cats.soft_remove (by_id e.id) w.db ≡ (ok tt, after.db))
  unfolding delete ◌>>=◌ parse_id
  ran actor id now found (ok e) old out w after q made k h =
      (e, refl, ground (arith, q, made, k, h), ground (arith, q, made, k, h))
  ran actor id now found (err x) old out w after q made k h = absurd (ground (arith, q, made, k, h))

  delete-found :
      (actor id : Text) (now : ℕ) (found : Result (Option CatEntity)) (out : Option CatEntity)
      (w after : World D)
      → cats.find_by_id id w.db ≡ found
      → delete p cats actor now (some id) w ≡ (ok out, after)
      → (old : CatEntity) × (found ≡ ok (some old))
  unfolding delete ◌>>=◌ parse_id
  delete-found actor id now (ok (some old)) out w after k h = (old, refl)
  delete-found actor id now (ok none) out w after k h = absurd (ground (arith, k, h))
  delete-found actor id now (err e) out w after k h = absurd (ground (arith, k, h))

  parse-stamps :
      (c e : CatEntity) (s : Stamps)
      → parse p (object c) ≡ ok e
      → (parse p (object (record c { stamps = s })) ≡ ok (record e { stamps = s })) × (e.id ≡ c.id)
  unfolding parse
  parse-stamps c e s h = ground arith

  again :
      (later : ℕ) (c e : CatEntity)
      → parse p (object c) ≡ ok e
      → (cat : CatEntity) × (construct (shape p) later (object c) ≡ ok cat)
        × (to_object (shape p) cat ≡ some cat)
        × (cat.id ≡ e.id)
  unfolding construct to_object
  again later c e k =
      let stamps = assign_stamps (initialize_timestamps later) e.stamps in
      (
        (shape p).with_stamps stamps e,
        rw k,
        ap data_of ((shape-ParseLaws p).parse-object (object c) e stamps k),
        refl,
      )

  -- A stored cat that the schema accepts is shown.
  shown :
      (later : ℕ) (id : Text) (c e : CatEntity) (after : World D)
      → p.is_uuid id ≡ true
      → e.id ≡ id
      → cats.find_by_id id after.db ≡ ok (some c)
      → parse p (object c) ≡ ok e
      → (cat : CatEntity) × (get_by_id p cats later (some id) after ≡ (ok (some cat), after))
        × (cat.id ≡ id)
  unfolding get_by_id ◌>>=◌ parse_id
  shown later id c e after u key q k =
      let (cat, made, plain, same) = again later c e k in
      (cat, ground (arith, u, q, made, plain), same ∙ key)

  -- Deleting a cat does not hide it: the repository's `findById` looks at no date of deletion, so
  -- a later search by the id returns a cat of that id, where a deleted bird is not found. The id is
  -- one that is not empty.
  pub get_by_id-delete_found :
      (actor id : Text) (now later : ℕ) (out : Option CatEntity) (w after : World D)
      → truthy id ≡ true
      → delete p cats actor now (some id) w ≡ (ok out, after)
      → (cat : CatEntity) × (get_by_id p cats later (some id) after ≡ (ok (some cat), after))
        × (cat.id ≡ id)
  get_by_id-delete_found actor id now later out w after t h =
      let found = cats.find_by_id id w.db in
      let (old, q) = delete-found actor id now found out w after refl h in
      let (e, made, u, gone) =
        ran actor id now found (construct (shape p) now (object old)) old out w after refl refl q
          h in
      let (parsed, k, same) = construct-parse (shape p) now (object old) e made in
      let (m, stored, shown_as) = found-eq id w.db (host.model.find_by_id id w.db) old refl q in
      let key = laws.find_by_id-id id m w.db stored in
      let known : old.id ≡ id = ap (λ (c : CatEntity). c.id) (sym shown_as) ∙ key in
      let (_, kept) = parse-stamps old parsed old.stamps k in
      let named : e.id ≡ id = ap (λ (c : CatEntity). c.id) (sym same) ∙ (kept ∙ known) in
      let (r, updated) =
        removed-eq id w.db after.db _ refl t
          (subst (λ x. cats.soft_remove (by_id x) w.db ≡ (ok tt, after.db)) named gone) in
      let (m', dates, there, dated) =
        laws.find_by_id-find_one_and_update id m r w.db after.db stored updated in
      let (accepted, _) = parse-stamps old parsed dates k in
      shown later id (record old { stamps = dates }) (record parsed { stamps = dates }) after u
        (kept ∙ known)
        (eq-found id after.db m' there
          ∙ ap (λ c. ok (some c))
              (dated ∙ ap (λ (c : CatEntity). record c { stamps = dates }) shown_as))
        accepted
