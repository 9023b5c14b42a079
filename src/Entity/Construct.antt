-- ===== src/Entity/Construct.antt =====
-- What a constructor of an entity class has checked.
use nestjs_microservice_boil.Base.{ℕ, ◌≡◌, refl, arith}
use nestjs_microservice_boil.Entity.{
  Shape, Result, assign_stamps, construct, initialize_timestamps, ok, ◌>>=◌, err,
}

module _ {O E : Type 0} (shape : Shape O E) where
  stamped : ℕ → E → E
  stamped now parsed =
      shape.with_stamps (assign_stamps (initialize_timestamps now) (shape.stamps parsed)) parsed

  parsed_of :
      (now : ℕ) (e : E) (r : Result E)
      → (r >>= λ parsed. ok (stamped now parsed)) ≡ ok e
      → (parsed : E) × (r ≡ ok parsed) × (stamped now parsed ≡ e)
  parsed_of now e (ok parsed) h = (parsed, refl, ground (arith, h))
  parsed_of now e (err x) h = absurd (ground arith)

  -- The new entity is the parsed object under new timestamps, where the object had none.
  pub construct-parse :
      (now : ℕ) (o : O) (e : E)
      → construct shape now o ≡ ok e
      → (parsed : E) × (shape.parse o ≡ ok parsed)
        × (shape.with_stamps
              (assign_stamps (initialize_timestamps now) (shape.stamps parsed))
              parsed
            ≡ e)
  unfolding construct stamped
  construct-parse now o e h = parsed_of now e (shape.parse o) h
