-- ===== src/Entity/Stored.antt =====
-- Entities that were constructed, stored as their plain objects, and constructed again.
use mathlib.Core.Path.{subst}
use nestjs_microservice_boil.Base.{ℕ, ◌≡◌, refl, some, ap, arith}
use nestjs_microservice_boil.Exception.{ok, data_of}
use nestjs_microservice_boil.Entity.{
  Shape, Stamps, Nullish, assign_stamps, initialize_timestamps, construct, to_object,
}
use nestjs_microservice_boil.Entity.Construct.{construct-parse}

-- What an entity class must provide: what the schema returned, it accepts and returns again,
-- whatever the timestamps; and the timestamps are a field.
pub record ParseLaws {O E : Type 0} (shape : Shape O E) : Type 0 where
  pub parse-object :
      (o : O) (e : E) (s : Stamps)
      → shape.parse o ≡ ok e
      → shape.parse (shape.object (shape.with_stamps s e)) ≡ ok (shape.with_stamps s e)
  pub stamps-with_stamps : (s : Stamps) (e : E) → shape.stamps (shape.with_stamps s e) ≡ s
  pub with_stamps-with_stamps :
      (s t : Stamps) (e : E) → shape.with_stamps s (shape.with_stamps t e) ≡ shape.with_stamps s e

-- Timestamps that were given once are kept.
assign_stamps-assign_stamps :
    (now later : ℕ) (c u d : Nullish ℕ)
    → assign_stamps (initialize_timestamps later) (
        assign_stamps
          (initialize_timestamps now)
          (record { created_at = c; updated_at = u; deleted_at = d }))
      ≡ assign_stamps
          (initialize_timestamps now)
          (record { created_at = c; updated_at = u; deleted_at = d })
unfolding assign_stamps initialize_timestamps
assign_stamps-assign_stamps now later c u d = ground arith

module _ {O E : Type 0} (shape : Shape O E) (laws : ParseLaws shape) where
  -- A new entity is its own plain object, under any timestamps.
  pub to_object-with_stamps :
      (now : ℕ) (o : O) (e : E) (s : Stamps)
      → construct shape now o ≡ ok e
      → to_object shape (shape.with_stamps s e) ≡ some (shape.with_stamps s e)
  unfolding to_object
  to_object-with_stamps now o e s h =
      let (parsed, k, same) = construct-parse shape now o e h in
      let again =
        laws.with_stamps-with_stamps s
          (assign_stamps (initialize_timestamps now) (shape.stamps parsed)) parsed in
      subst
        (λ x.
          data_of (shape.parse (shape.object (shape.with_stamps s x)))
          ≡ some (shape.with_stamps s x))
        same (rw again (ap data_of (laws.parse-object o parsed s k)))

  pub parse-construct :
      (now : ℕ) (o : O) (e : E) → construct shape now o ≡ ok e → shape.parse (shape.object e) ≡ ok e
  parse-construct now o e h =
      let (parsed, k, same) = construct-parse shape now o e h in
      rw (← same) (laws.parse-object o parsed _ k)

  pub to_object-construct :
      (now : ℕ) (o : O) (e : E) → construct shape now o ≡ ok e → to_object shape e ≡ some e
  unfolding to_object
  to_object-construct now o e h = ap data_of (parse-construct now o e h)

  restored :
      (later : ℕ) (x : E) (t : Stamps)
      → shape.parse (shape.object x) ≡ ok x
      → shape.stamps x ≡ t
      → assign_stamps (initialize_timestamps later) t ≡ t
      → shape.with_stamps t x ≡ x
      → construct shape later (shape.object x) ≡ ok x
  unfolding construct
  restored later x t parsed stamped kept same = rw (parsed, stamped, kept, same) refl

  -- Constructing it again, at a later time, gives it back.
  pub construct-construct :
      (now later : ℕ) (o : O) (e : E)
      → construct shape now o ≡ ok e
      → construct shape later (shape.object e) ≡ ok e
  construct-construct now later o e h =
      let (parsed, k, same) = construct-parse shape now o e h in
      let s = shape.stamps parsed in
      let t = assign_stamps (initialize_timestamps now) s in
      rw (← same) (
        restored later (shape.with_stamps t parsed) t (laws.parse-object o parsed t k)
          (laws.stamps-with_stamps t parsed)
          (assign_stamps-assign_stamps now later s.created_at s.updated_at s.deleted_at)
          (laws.with_stamps-with_stamps t t parsed))
