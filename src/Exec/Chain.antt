-- ===== src/Exec/Chain.antt =====
-- Inversion of a chain of actions that returned.
use nestjs_microservice_boil.Base.{◌≡◌, refl, arith}
use nestjs_microservice_boil.Exception.{Result, ok, err, Exception}
use nestjs_microservice_boil.Exec.{Exec, World, ◌>>=◌, validate_schema, lift}

module _ {D A B : Type 0} where
  bound :
      (f : A → Exec D B) (r : Result A) (w w' after : World D) (b : B) (m : Exec D A)
      → m w ≡ (r, w')
      → (m >>= f) w ≡ (ok b, after)
      → (a : A) × (v : World D) × (m w ≡ (ok a, v)) × (f a v ≡ (ok b, after))
  unfolding ◌>>=◌
  bound f (ok a) w w' after b m k h = (a, w', k, ground arith)
  bound f (err e) w w' after b m k h = absurd (ground arith)

  pub bind-eq-ok :
      (m : Exec D A) (f : A → Exec D B) (w after : World D) (b : B)
      → (m >>= f) w ≡ (ok b, after)
      → (a : A) × (v : World D) × (m w ≡ (ok a, v)) × (f a v ≡ (ok b, after))
  bind-eq-ok m f w after b h = bound f (m w).0 w (m w).1 after b m refl h

  -- The other direction, where the first action is known to return.
  pub ok-bind :
      (m : Exec D A) (f : A → Exec D B) (w : World D) (a : A)
      → (m w).0 ≡ ok a
      → (m >>= f) w ≡ f a (m w).1
  unfolding ◌>>=◌
  ok-bind m f w a h = ground arith

  -- A value that was computed without the database.
  pub lift-ok :
      (r : Result A) (f : A → Exec D B) (w : World D) (a : A) → r ≡ ok a → (lift r >>= f) w ≡ f a w
  unfolding ◌>>=◌
  lift-ok r f w a h = ok-bind (lift r) f w a h

  pub lift-err :
      (r : Result A) (f : A → Exec D B) (w : World D) (e : Exception)
      → r ≡ err e
      → (lift r >>= f) w ≡ (err e, w)
  unfolding ◌>>=◌
  lift-err r f w e h = ground (arith, h)

module _ {D I A : Type 0} where
  -- A method behind its schema returned: the input was accepted, and the method ran on it.
  pub validate_schema-eq-ok :
      (r : Result I) (method : I → Exec D A) (w after : World D) (a : A)
      → validate_schema r method w ≡ (ok a, after)
      → (i : I) × (r ≡ ok i) × (method i w ≡ (ok a, after))
  unfolding ◌>>=◌
  validate_schema-eq-ok (ok i) method w after a h = (i, refl, h)
  validate_schema-eq-ok (err e) method w after a h = absurd (ground arith)
