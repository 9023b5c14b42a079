-- ===== src/Entity/Merge.antt =====
-- What `merge` leaves behind, as `toObject` shows it.
use nestjs_microservice_boil.Base.{◌≡◌, refl, sym, ap, arith, ◌∙◌}
use nestjs_microservice_boil.Exception.{Result, ok, err, ◌>>=◌, data_of}
use nestjs_microservice_boil.Entity.{Shape, merge, merged, to_object}

-- What an entity class must provide: over an entity that the schema accepts, assigning the parsed
-- form of a merged object and then the object itself leaves nothing that the schema could tell
-- from the object.
pub record MergeLaws {O E : Type 0} (shape : Shape O E) : Type 0 where
  pub parse-object-assign :
      (e accepted parsed : E) (partial : O)
      → shape.parse (shape.object e) ≡ ok accepted
      → shape.parse (shape.spread (shape.object accepted) partial) ≡ ok parsed
      → shape.parse (
          shape.object (
            shape.assign
              (shape.assign e (shape.object parsed))
              (shape.spread (shape.object accepted) partial)))
        ≡ ok parsed

module _ {O E : Type 0} (shape : Shape O E) (laws : MergeLaws shape) where
  merge-parsed :
      (e accepted after : E) (partial : O) (r : Result E)
      → shape.parse (shape.object e) ≡ ok accepted
      → shape.parse (shape.spread (shape.object accepted) partial) ≡ r
      → (r >>= λ q. ok (
          shape.assign
            (shape.assign e (shape.object q))
            (shape.spread (shape.object accepted) partial)))
        ≡ ok after
      → to_object shape after ≡ data_of r
  unfolding to_object
  merge-parsed e accepted after partial (err x) a h k = cc
  merge-parsed e accepted after partial (ok q) a h k =
      let o = shape.spread (shape.object accepted) partial in
      let same : shape.assign (shape.assign e (shape.object q)) o ≡ after = ground (arith, k) in
      rw (← same) (ap data_of (laws.parse-object-assign e accepted q partial a h))

  pub merge_lem :
      (e accepted : E) (partial : O)
      → shape.parse (shape.object e) ≡ ok accepted
      → merge shape e partial ≡ (
          shape.parse (shape.spread (shape.object accepted) partial) >>= λ q. ok (
            shape.assign
              (shape.assign e (shape.object q))
              (shape.spread (shape.object accepted) partial)))
  unfolding merge merged to_object
  merge_lem e accepted partial a = ground (arith, a)

  -- For a class with MergeLaws: what `toObject` is after a successful merge.
  pub to_object-merge :
      (e accepted after : E) (partial : O)
      → shape.parse (shape.object e) ≡ ok accepted
      → merge shape e partial ≡ ok after
      → to_object shape after ≡ data_of (shape.parse (shape.spread (shape.object accepted) partial))
  to_object-merge e accepted after partial a h =
      let o = shape.spread (shape.object accepted) partial in
      merge-parsed e accepted after partial (shape.parse o) a refl
        (sym (merge_lem e accepted partial a) ∙ h)
